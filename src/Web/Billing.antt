-- ===== src/Web/Billing.antt =====
-- billing/intent.ts, billing/checkout.ts and hooks/use-resume-intent.ts: the purchase that a visitor
-- chose before signing up. `IntentJson` is `JSON` on intents: what `JSON.parse` reads of a text is an
-- `IntentReading`, and `none` is its exception. What Razorpay and the API answer is an argument.
pub mod Once
use new_specter.Web.Storage.{Storage, get_item, set_item, remove_item}
use new_specter.Common.{
  ℕ, zero, suc, ◌+◌, ◌-◌, ◌*◌, ◌/◌, ◌%◌, ◌^◌, ◌≤◌, ◌<◌, min, max, String, ◌≡◌, refl, sym, ap, subst,
  ◌∙◌, fun_ext, ◌≢◌, ◌↔◌, ◌⊎◌, inl, inr, Bool, true, false, not, ◌&&◌, ◌||◌, Option, none, some,
  List, [], ◌∷◌, ◌++◌, map, arith, ℕ_discrete, ltb, leb, ◌==◌, if◌then◌else◌, ltb→lt, lt→ltb,
  leb→le, le→leb, ==_iff, Bool-cases, Option-cases, is_some, or_else, ◌>>=◌, length, get_or, any_of,
  all_of, filter_by, length-append, any_of-append, get_or-any_of, any_of-false, all_of-get_or,
  all_of-filter_by, length-filter_by-le, sort_by, is_sorted_by, sort_by-Perm, sort_by-all_of,
  sort_by-stable, sort_by-is_sorted_by, sort_by-eq-filter_by, ℤ, pos, negsuc, credit, debit,
  difference, ◌+ℤ◌, leb_ℤ, +ℤ_lem, ℤ_ext, integers, joined, after, after-joined, joined-injective,
  joined-after, str_eq, str_eq_iff, str_eq_refl, str_eq_ne, includes, includes-any_of, codes,
  contains, matches_ci,
}

pub data BillingAction : Type 0 where
  trial buy : BillingAction

pub record BillingIntent : Type 0 where
  pub action : BillingAction
  pub plan : String
  pub cadence : String
  pub ts : ℕ

-- An action or a time of another kind than the source asks for is `none`.
pub record IntentReading : Type 0 where
  pub action : Option BillingAction
  pub plan : String
  pub cadence : String
  pub ts : Option ℕ

pub record IntentJson : Type 0 where
  pub stringify : BillingIntent → String
  pub parse : String → Option IntentReading

abbrev pub intent_key : String
intent_key = "specter.billing_intent"

abbrev pub ttl_ms : ℕ
ttl_ms = 60 * 60 * 1000

unfoldable pub checked : IntentReading → Option BillingIntent
checked r = do
  action ← r.action
  ts ← r.ts
  some record { action = action; plan = r.plan; cadence = r.cadence; ts = ts }

abbrev pub clear_intent : Storage → Storage
clear_intent s = remove_item s intent_key

-- `now - intent.ts <= TTL_MS`
abbrev pub is_fresh : BillingIntent → ℕ → Bool
is_fresh intent now = leb now (intent.ts + ttl_ms)

module _ (json : IntentJson) where
  -- A storage that is full keeps what it has.
  unfoldable pub save_intent : Bool → Storage → BillingIntent → ℕ → Storage
  save_intent full s intent now =
      if full
      then s
      else set_item s intent_key (
          json.stringify record {
            action = intent.action;
            plan = intent.plan;
            cadence = intent.cadence;
            ts = now;
          })

  unfoldable pub read_raw : Option String → Option BillingIntent
  read_raw none = none
  read_raw (some String.[]) = none
  read_raw (some (String.◌∷◌ c s)) = json.parse (String.◌∷◌ c s) >>= checked

  unfoldable pub read_intent : Storage → Option BillingIntent
  read_intent s = read_raw (get_item s intent_key)

  -- The effect of a mounted hook: the storage, whether it has run, and the intent that it acts on.
  unfoldable pub resume_intent : Bool → Storage → ℕ → Storage × Bool × Option BillingIntent
  resume_intent ran s now = if ran then (s, true, none) else elim (read_intent s) [
    | none ↦ (s, false, none)
    | some intent ↦ (clear_intent s, true, if is_fresh intent now then some intent else none)
  ]

pub data CheckoutMode : Type 0 where
  embedded hosted no_checkout : CheckoutMode

abbrev pub is_text : Option String → Bool
is_text none = false
is_text (some s) = not (str_eq s "")

unfoldable pub choose_checkout_mode : String → Bool → Option String → CheckoutMode
choose_checkout_mode key_id script_loaded short_url =
    if not (str_eq key_id "") && script_loaded
    then embedded
    else if is_text short_url
    then hosted
    else no_checkout

-- `openCheckout`: the script is loaded only with a key.
unfoldable pub open_checkout : String → Bool → Option String → CheckoutMode
open_checkout key_id loads short_url =
    choose_checkout_mode key_id (if str_eq key_id "" then false else loads) short_url
