-- ===== src/Web/Scenarios.antt =====
-- tools/scenarios.ts: the scenarios that a visitor saves in the browser.
--
-- A number of a result is carried along and never read, so its type is a parameter. `ScenarioJson` is
-- `JSON.stringify` of a list of scenarios and `JSON.parse` of a text; `none` is its exception, and
-- `other` is a value that is no list and that cannot be spread. That a text is spread into its
-- characters is left out.
pub mod Laws
pub mod Runs
use new_specter.Web.Storage.{Storage, get_item, set_item}
use new_specter.Common.{
  joined, ℕ, zero, suc, ◌+◌, ◌-◌, ◌*◌, ◌/◌, ◌%◌, ◌^◌, ◌≤◌, ◌<◌, min, max, String, ◌≡◌, refl, sym,
  ap, subst, ◌∙◌, fun_ext, ◌≢◌, ◌↔◌, ◌⊎◌, inl, inr, Bool, true, false, not, ◌&&◌, ◌||◌, Option,
  none, some, List, [], ◌∷◌, ◌++◌, map, arith, ℕ_discrete, ltb, leb, ◌==◌, if◌then◌else◌, ltb→lt,
  lt→ltb, leb→le, le→leb, ==_iff, Bool-cases, Option-cases, is_some, or_else, ◌>>=◌, length, get_or,
  any_of, all_of, filter_by, length-append, any_of-append, get_or-any_of, any_of-false,
  all_of-get_or, all_of-filter_by, length-filter_by-le, str_eq, str_eq_iff, str_eq_refl, str_eq_ne,
  includes, includes-any_of, codes, contains, matches_ci,
}

pub data Input : Type 0 where
  text : String → Input
  flag : Bool → Input

pub record Scenario (N : Type 0) : Type 0 where
  pub id : String
  pub name : String
  pub currency : Option String
  pub inputs : List (String × Input)
  pub results : List (String × N)
  pub saved_at : ℕ

pub data Parsed (N : Type 0) : Type 0 where
  list : List (Scenario N) → Parsed N
  other : Parsed N

pub record ScenarioJson (N : Type 0) : Type 0 where
  pub stringify : List (Scenario N) → String
  pub parse : String → Option (Parsed N)

abbrev pub max_scenarios : ℕ
max_scenarios = 5

abbrev pub prefix : String
prefix = "specter_scenarios_"

unfoldable pub storage_key : String → String
storage_key tool = joined prefix tool

-- `xs.slice(0, n)`
abbrev pub take {ℓ} : {A : Type ℓ} → ℕ → List A → List A
take zero xs = []
take (suc n) [] = []
take (suc n) (x ∷ xs) = x ∷ take n xs

abbrev pub kept : {N : Type 0} → String → List (Scenario N) → List (Scenario N)
kept id = filter_by (λ x. not (str_eq x.id id))

module _ {N : Type 0} (json : ScenarioJson N) where
  -- An empty text is falsy.
  unfoldable pub load_raw : Option String → Parsed N
  load_raw none = list []
  load_raw (some String.[]) = list []
  load_raw (some (String.◌∷◌ c s)) = or_else (json.parse (String.◌∷◌ c s)) (list [])

  unfoldable pub load_scenarios : Storage → String → Parsed N
  load_scenarios s tool = load_raw (get_item s (storage_key tool))

  abbrev pub write_scenarios : Storage → String → List (Scenario N) → Storage
  write_scenarios s tool xs = set_item s (storage_key tool) (json.stringify xs)

  -- The scenario with the id and the time that it is given. A bucket that is no list throws.
  unfoldable pub save_scenario : Storage → String → Scenario N → Option Storage
  save_scenario s tool new_scenario = elim (load_scenarios s tool) [
    | list existing ↦ some (write_scenarios s tool (take max_scenarios (new_scenario ∷ existing)))
    | other ↦ none
  ]

  unfoldable pub delete_scenario : Storage → String → String → Option Storage
  delete_scenario s tool id = elim (load_scenarios s tool) [
    | list existing ↦ some (write_scenarios s tool (kept id existing))
    | other ↦ none
  ]
