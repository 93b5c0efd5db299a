-- ===== src/Web/Migration.antt =====
-- tools/migrate-scenarios.ts and use-migrate-scenarios.ts: the scenarios that were saved in the
-- browser are lifted into the account. The answers of the API are `accepts`, by the number of the
-- request.
pub mod Lossless
pub mod Complete
use new_specter.Web.Storage.{Storage, get_item, remove_item}
use new_specter.Web.Scenarios.{Input, Scenario, Parsed, list, other, ScenarioJson, prefix}
use new_specter.Common.{
  joined, after, ℕ, zero, suc, ◌+◌, ◌-◌, ◌*◌, ◌/◌, ◌%◌, ◌^◌, ◌≤◌, ◌<◌, min, max, String, ◌≡◌, refl,
  sym, ap, subst, ◌∙◌, fun_ext, ◌≢◌, ◌↔◌, ◌⊎◌, inl, inr, Bool, true, false, not, ◌&&◌, ◌||◌, Option,
  none, some, List, [], ◌∷◌, ◌++◌, map, arith, ℕ_discrete, ltb, leb, ◌==◌, if◌then◌else◌, ltb→lt,
  lt→ltb, leb→le, le→leb, ==_iff, Bool-cases, Option-cases, is_some, or_else, ◌>>=◌, length, get_or,
  any_of, all_of, filter_by, length-append, any_of-append, get_or-any_of, any_of-false,
  all_of-get_or, all_of-filter_by, length-filter_by-le, str_eq, str_eq_iff, str_eq_refl, str_eq_ne,
  includes, includes-any_of, codes, contains, matches_ci,
}

pub record Group (N : Type 0) : Type 0 where
  pub tool_id : String
  pub scenarios : List (Scenario N)

pub record Payload (N : Type 0) : Type 0 where
  pub tool_name : String
  pub name : String
  pub inputs : List (String × Input)
  pub results : List (String × N)
  pub currency : Option String

-- What `parsed` is pushed as: a list with a scenario at least.
unfoldable pub group_of : {N : Type 0} → String → Option (Parsed N) → Option (Group N)
group_of tool none = none
group_of tool (some other) = none
group_of tool (some (list [])) = none
group_of tool (some (list (x ∷ xs))) = some record { tool_id = tool; scenarios = x ∷ xs }

abbrev pub push_some : {A : Type 0} → Option A → List A → List A
push_some none xs = xs
push_some (some x) xs = x ∷ xs

-- One payload per scenario of a group.
abbrev pub payloads_of : {N : Type 0} → String → List (Scenario N) → List (Payload N)
payloads_of tool [] = []
payloads_of tool (x ∷ xs) =
    record {
      tool_name = tool;
      name = x.name;
      inputs = x.inputs;
      results = x.results;
      currency = x.currency;
    }
    ∷ payloads_of tool xs

abbrev pub to_calculation_payloads : {N : Type 0} → List (Group N) → List (Payload N)
to_calculation_payloads [] = []
to_calculation_payloads (g ∷ gs) = payloads_of g.tool_id g.scenarios ++ to_calculation_payloads gs

abbrev pub group_key : {N : Type 0} → Group N → String
group_key g = joined prefix g.tool_id

abbrev pub clear_local_scenarios : {N : Type 0} → List (Group N) → Storage → Storage
clear_local_scenarios [] s = s
clear_local_scenarios (g ∷ gs) s = clear_local_scenarios gs (remove_item s (group_key g))

module _ {N : Type 0} (json : ScenarioJson N) where
  -- The group of a key, and none for a key that does not begin with the prefix.
  unfoldable pub bucket : Storage → String → Option (Group N)
  bucket s key = elim (after prefix key) [
    | none ↦ none
    | some tool ↦ group_of tool (json.parse (or_else (get_item s key) "[]"))
  ]

  -- The keys in their order, of a storage that does not change meanwhile.
  abbrev pub collect_keys : Storage → Storage → List (Group N)
  collect_keys s [] = []
  collect_keys s (x ∷ xs) = push_some (bucket s x.0) (collect_keys s xs)

  abbrev pub collect_local_scenarios : Storage → List (Group N)
  collect_local_scenarios s = collect_keys s s

-- Requests of one group, from the number `n` on: what was saved, and whether all were.
abbrev pub save_all : {N : Type 0} → (ℕ → Bool) → ℕ → List (Payload N) → List (Payload N) × Bool
save_all accepts n [] = ([], true)
save_all accepts n (p ∷ ps) =
    let (saved, all_ok) = save_all accepts (suc n) ps in
    (if accepts n then p ∷ saved else saved, accepts n && all_ok)

-- The groups in their order: what was saved, and the groups that were fully imported.
abbrev pub import_groups :
    {N : Type 0} → (ℕ → Bool) → ℕ → List (Group N) → List (Payload N) × List (Group N)
import_groups accepts n [] = ([], [])
import_groups accepts n (g ∷ gs) =
    let payloads = to_calculation_payloads (g ∷ []) in
    let (saved, all_ok) = save_all accepts n payloads in
    let (more, imported) = import_groups accepts (n + length payloads) gs in
    (saved ++ more, if all_ok then g ∷ imported else imported)

module _ {N : Type 0} (json : ScenarioJson N) where
  -- The effect of the hook, and what it has saved in the account.
  unfoldable pub migrate :
      (enabled started preview : Bool) → (ℕ → Bool) → Storage → List (Payload N) × Storage
  migrate enabled started preview accepts s =
      if not enabled || started
      then ([], s)
      else if preview
      then ([], s)
      else (let (saved, imported) = import_groups accepts 0 (collect_local_scenarios json s) in
          (saved, clear_local_scenarios imported s))
