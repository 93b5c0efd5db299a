-- ===== src/Web/Tests.antt =====
-- The models of specter-web at concrete inputs.
mod Formats
mod Samples
mod Dashboard
use new_specter.Web.Tests.Samples.{
  sample_json, sample_json-IsFaithful, sample_json-empty, sample_intents, sample_intents-IsFaithful,
}
use new_specter.Web.Share.{Codec, encode_share_state, decode_share_state, url_text, to_url}
use new_specter.Web.Share.Base64.{btoa, digit}
use new_specter.Web.Share.RoundTrip.{is_url_char, decode-encode}
use new_specter.Web.Share.Rejects.{decode_rejects}
use new_specter.Web.Storage.{Storage, get_item}
use new_specter.Web.Scenarios.{
  Scenario, Parsed, list, load_raw, load_scenarios, save_scenario, ScenarioJson,
}
use new_specter.Web.Scenarios.Runs.{
  save, delete, Op, view_run, size_of, run, run_refines, run-bounded,
}
use new_specter.Web.Migration.{
  Group, migrate, group_key, to_calculation_payloads, collect_local_scenarios,
}
use new_specter.Web.Migration.Lossless.{IsSaved, nothing_lost}
use new_specter.Web.Migration.Complete.{all_imported}
use new_specter.Web.Billing.{buy, BillingIntent, read_raw, read_intent}
use new_specter.Web.Billing.Once.{
  choose, mount, effect, Event, Browser, browse, choices, all_fresh, acted_once, choice_resumed,
}
use new_specter.Common.{
  ℕ, zero, suc, ◌+◌, ◌-◌, ◌*◌, ◌/◌, ◌%◌, ◌^◌, ◌≤◌, ◌<◌, min, max, String, ◌≡◌, refl, sym, ap, subst,
  ◌∙◌, fun_ext, ◌≢◌, ◌↔◌, ◌⊎◌, inl, inr, Bool, true, false, not, ◌&&◌, ◌||◌, Option, none, some,
  List, [], ◌∷◌, ◌++◌, map, arith, ℕ_discrete, ltb, leb, ◌==◌, if◌then◌else◌, ltb→lt, lt→ltb,
  leb→le, le→leb, ==_iff, Bool-cases, Option-cases, is_some, or_else, ◌>>=◌, length, get_or, any_of,
  all_of, filter_by, length-append, any_of-append, get_or-any_of, any_of-false, all_of-get_or,
  all_of-filter_by, length-filter_by-le, sort_by, is_sorted_by, sort_by-Perm, sort_by-all_of,
  sort_by-stable, sort_by-is_sorted_by, sort_by-eq-filter_by, ℤ, pos, negsuc, credit, debit,
  difference, ◌+ℤ◌, leb_ℤ, +ℤ_lem, ℤ_ext, integers, joined, after, after-joined, joined-injective,
  joined-after, str_eq, str_eq_iff, str_eq_refl, str_eq_ne, includes, includes-any_of, codes,
  contains, matches_ci,
}

-- A state that is its own list of bytes.
abbrev bytes_codec : Codec (List ℕ)
bytes_codec = record { bytes_of = λ s. some s; state_of = λ b. some b }

abbrev state : List ℕ
state = 123 ∷ 255 ∷ 254 ∷ 0 ∷ []

shared_text : encode_share_state bytes_codec state ≡ codes "e__-AA"
unfolding encode_share_state url_text btoa to_url digit
shared_text = refl

decode-encode_example :
    (decode_share_state bytes_codec (encode_share_state bytes_codec state) ≡ some state)
    × (all_of is_url_char (encode_share_state bytes_codec state) ≡ true)
decode-encode_example =
    decode-encode bytes_codec state state refl
      (omega arith, (omega arith, (omega arith, (omega arith, tt)))) refl

decode_rejects_example : decode_share_state bytes_codec (codes "e__-A") ≡ none
decode_rejects_example = decode_rejects bytes_codec (codes "e__-A") (inr (refl, refl))

abbrev lamp : Scenario ℕ
lamp = record {
  id = "s1";
  name = "Lamp";
  currency = some "USD";
  inputs = [];
  results = ("roas", 3) ∷ [];
  saved_at = 17;
}

abbrev edits : List (Op ℕ)
edits = save "roas" lamp ∷ delete "fba" "s1" ∷ save "fba" lamp ∷ []

run_refines_example :
    load_scenarios sample_json (run sample_json [] edits)
    ≡ view_run (load_scenarios sample_json []) edits
run_refines_example = run_refines sample_json [] edits sample_json-IsFaithful

-- Whatever a text holds, one scenario is read in it.
abbrev one_lamp : ScenarioJson ℕ
one_lamp = record {
  stringify = λ xs. "[]";
  parse = λ s. if str_eq s "[]" then some (list []) else some (list (lamp ∷ []));
}

abbrev browser_items : Storage
browser_items = ("theme", "dark") ∷ ("specter_scenarios_roas", "[x]") ∷ []

abbrev refuses : ℕ → Bool
refuses n = false

nothing_lost_example :
    let (saved, s') = migrate one_lamp true false false refuses browser_items in
    (get_item s' "specter_scenarios_roas" ≡ get_item browser_items "specter_scenarios_roas")
    ⊎ ((g : Group ℕ) × (group_key g ≡ "specter_scenarios_roas")
        × (one_lamp.parse (or_else (get_item browser_items "specter_scenarios_roas") "[]")
            ≡ some (list g.scenarios))
        × IsSaved g saved)
nothing_lost_example =
    nothing_lost one_lamp true false false refuses browser_items "specter_scenarios_roas"

all_imported_example :
    let (saved, s') = migrate one_lamp true false false (λ n. true) browser_items in
    (saved ≡ to_calculation_payloads (collect_local_scenarios one_lamp browser_items))
    × (collect_local_scenarios one_lamp s' ≡ [])
all_imported_example = all_imported one_lamp (λ n. true) browser_items (λ n. refl) refl

abbrev cipher : BillingIntent
cipher = record { action = buy; plan = "cipher"; cadence = "annual"; ts = 0 }

abbrev visits : List Event
visits = choose false cipher 100 ∷ mount ∷ effect 200 ∷ effect 201 ∷ mount ∷ effect 300 ∷ []

no_intent : read_intent sample_intents [] ≡ none
unfolding read_intent read_raw
no_intent = refl

acted_once_example :
    let b = browse sample_intents record { storage = []; ran = false; acted = [] } visits in
    (length b.acted ≤ choices visits) × (all_fresh b.acted ≡ true)
acted_once_example = acted_once sample_intents [] visits no_intent

abbrev fresh_browser : Browser
fresh_browser = record { storage = ("theme", "dark") ∷ []; ran = false; acted = [] }

choice_resumed_example :
    let b' = browse sample_intents fresh_browser (choose false cipher 100 ∷ effect 200 ∷ []) in
    (b'.acted ≡ (record { action = buy; plan = "cipher"; cadence = "annual"; ts = 100 }, 200) ∷ [])
    × (read_intent sample_intents b'.storage ≡ none)
choice_resumed_example =
    choice_resumed sample_intents fresh_browser cipher 100 200 sample_intents-IsFaithful refl
      (omega arith)
