-- ===== src/Web/Billing/Once.antt =====
-- billing/intent.ts and hooks/use-resume-intent.ts: which intents are acted on, and when.
use new_specter.Web.Storage.{Storage, get_item, set_item, get_item-set_item, get_item-remove_item}
use new_specter.Web.Billing.{
  BillingIntent, IntentJson, intent_key, ttl_ms, clear_intent, is_fresh, save_intent, read_raw,
  read_intent, resume_intent,
}
use new_specter.Common.{
  ℕ, suc, ◌+◌, ◌≤◌, ◌≡◌, refl, ap, ◌∙◌, inl, inr, Bool, true, false, Option, none, some, List, [],
  ◌∷◌, arith, if◌then◌else◌, le→leb, Bool-cases, Option-cases, is_some, length, all_of,
}

-- What happens in a browser: the visitor chooses a plan, where the storage may be full; a page
-- mounts the hook; the effect of the hook that is mounted runs, which it may do again.
pub data Event : Type 0 where
  choose : Bool → BillingIntent → ℕ → Event
  mount : Event
  effect : ℕ → Event

-- The storage, the flag of the mounted hook, and what was acted on, the latest first, each with the
-- time of the action.
pub record Browser : Type 0 where
  pub storage : Storage
  pub ran : Bool
  pub acted : List (BillingIntent × ℕ)

abbrev pub recorded : Option BillingIntent → ℕ → List (BillingIntent × ℕ) → List (BillingIntent × ℕ)
recorded none now done = done
recorded (some i) now done = (i, now) ∷ done

abbrev pub all_fresh : List (BillingIntent × ℕ) → Bool
all_fresh = all_of (λ a. is_fresh a.0 a.1)

abbrev pub choices : List Event → ℕ
choices [] = 0
choices (choose full i t ∷ es) = suc (choices es)
choices (mount ∷ es) = choices es
choices (effect t ∷ es) = choices es

module _ (json : IntentJson) where
  unfoldable pub happens : Browser → Event → Browser
  happens b (choose full intent now) = record b {
    storage = save_intent json full b.storage intent now;
  }
  happens b mount = record b { ran = false }
  happens b (effect now) =
      let (s, ran, acts) = resume_intent json b.ran b.storage now in
      record { storage = s; ran = ran; acted = recorded acts now b.acted }

  abbrev pub browse : Browser → List Event → Browser
  browse b [] = b
  browse b (e ∷ es) = browse (happens b e) es

  -- An intent that is stored counts as one.
  abbrev pub pending : Browser → ℕ
  pending b = if is_some (read_intent json b.storage) then 1 else 0

  read_intent-clear : (s : Storage) → read_intent json (clear_intent s) ≡ none
  unfolding read_intent read_raw
  read_intent-clear s = ap (read_raw json) (get_item-remove_item s intent_key)

  abbrev IsCareful : Browser → ℕ → Type 0
  IsCareful b n = (length b.acted + pending b ≤ n) × (all_fresh b.acted ≡ true)

  choose-IsCareful :
      (b : Browser) (full : Bool) (i : BillingIntent) (now n : ℕ)
      → IsCareful b n
      → IsCareful (happens b (choose full i now)) (suc n)
  unfolding happens
  choose-IsCareful b full i now n h = ground arith

  -- What an effect leaves, by what it found.
  effect-found :
      (b : Browser) (i : BillingIntent) (now n : ℕ)
      → IsCareful b n
      → read_intent json b.storage ≡ some i
      → IsCareful
          record {
            storage = clear_intent b.storage;
            ran = true;
            acted = recorded (if is_fresh i now then some i else none) now b.acted;
          }
          n
  effect-found b i now n h e = elim (Bool-cases (is_fresh i now)) [
    | inl f ↦
        rw f (ground (arith, h.0, h.1, ap is_some e, ap is_some (read_intent-clear b.storage)))
    | inr f ↦
        rw f (ground (arith, h.0, h.1, ap is_some e, ap is_some (read_intent-clear b.storage)))
  ]

  effect-IsCareful :
      (b : Browser) (now n : ℕ) → IsCareful b n → IsCareful (happens b (effect now)) n
  unfolding happens resume_intent
  effect-IsCareful b now n h = elim (Bool-cases b.ran) [
    | inl e ↦ rw (e, happens, resume_intent) h
    | inr e ↦ elim (Option-cases (read_intent json b.storage)) [
      | inl r ↦ rw (e, r, happens, resume_intent) h
      | inr (i, r) ↦ rw (e, r, happens, resume_intent) (effect-found b i now n h r)
    ]
  ]

  browse-IsCareful :
      (es : List Event) (b : Browser) (n : ℕ)
      → IsCareful b n
      → IsCareful (browse b es) (n + choices es)
  unfolding happens
  browse-IsCareful [] b n h = ground arith
  browse-IsCareful (choose full i t ∷ es) b n h = ground (
    arith,
    browse-IsCareful es (happens b (choose full i t)) (suc n) (choose-IsCareful b full i t n h),
  )
  browse-IsCareful (mount ∷ es) b n h = browse-IsCareful es (record b { ran = false }) n h
  browse-IsCareful (effect t ∷ es) b n h =
      browse-IsCareful es (happens b (effect t)) n (effect-IsCareful b t n h)

  -- From a browser without a stored intent, whatever pages are mounted and however often their
  -- effects run, no more intents are acted on than were chosen, and each of them within an hour of
  -- the time that it was stored with.
  pub acted_once :
      (s : Storage) (es : List Event)
      → read_intent json s ≡ none
      → let b = browse record { storage = s; ran = false; acted = [] } es in
        (length b.acted ≤ choices es) × (all_fresh b.acted ≡ true)
  acted_once s es h =
      let start : Browser = record { storage = s; ran = false; acted = [] } in
      let (bound, fresh) = browse-IsCareful es start 0 (ground (arith, ap is_some h)) in
      (omega (arith, bound), fresh)

  -- What `JSON` documents of an intent: its text is not empty and is read as the intent.
  abbrev pub IsFaithful : Type 0
  IsFaithful = (i : BillingIntent) → read_raw json (some (json.stringify i)) ≡ some i

  read_back :
      (s : Storage) (j : BillingIntent)
      → get_item s intent_key ≡ some (json.stringify j)
      → read_raw json (some (json.stringify j)) ≡ some j
      → read_intent json s ≡ some j
  unfolding read_intent
  read_back s j e e' = ap (read_raw json) e ∙ e'

  -- An intent that is stored is acted on by the next effect of a page that has not run it, if that
  -- is within an hour, with the plan that was chosen; after that nothing is stored.
  pub choice_resumed :
      (b : Browser) (i : BillingIntent) (now later : ℕ)
      → IsFaithful
      → b.ran ≡ false
      → later ≤ now + ttl_ms
      → let stamped : BillingIntent = record {
        action = i.action;
        plan = i.plan;
        cadence = i.cadence;
        ts = now;
      } in
        let b' = browse b (choose false i now ∷ effect later ∷ []) in
        (b'.acted ≡ (stamped, later) ∷ b.acted) × (read_intent json b'.storage ≡ none)
  unfolding happens resume_intent save_intent
  choice_resumed b i now later f idle soon =
      let stamped : BillingIntent = record {
        action = i.action;
        plan = i.plan;
        cadence = i.cadence;
        ts = now;
      } in
      let s : Storage = set_item b.storage intent_key (json.stringify stamped) in
      let stored =
        read_back s stamped (get_item-set_item b.storage intent_key (json.stringify stamped))
          (f stamped) in
      rw (idle, happens, resume_intent, stored, le→leb later (now + ttl_ms) soon)
        (refl, read_intent-clear s)
