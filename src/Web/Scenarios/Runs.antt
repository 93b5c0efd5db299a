-- ===== src/Web/Scenarios/Runs.antt =====
-- tools/scenarios.ts: sequences of saves and deletions, against a map from tools to lists.
use new_specter.Web.Storage.{Storage}
use new_specter.Web.Scenarios.{
  Scenario, Parsed, list, other, ScenarioJson, max_scenarios, take, kept, load_scenarios,
  write_scenarios, save_scenario, delete_scenario,
}
use new_specter.Web.Scenarios.Laws.{IsFaithful, load-write, load-write_ne, save-write, delete-write}
use new_specter.Common.{
  ℕ, zero, suc, ◌≤◌, String, ◌≡◌, refl, sym, ap, ◌∙◌, fun_ext, ◌≢◌, ◌⊎◌, inl, inr, false, not,
  Option, List, [], ◌∷◌, arith, if◌then◌else◌, Bool-cases, or_else, length, length-filter_by-le,
  str_eq, str_eq_iff,
}

pub data Op (N : Type 0) : Type 0 where
  save : String → Scenario N → Op N
  delete : String → String → Op N

abbrev pub tool_of : {N : Type 0} → Op N → String
tool_of (save tool x) = tool
tool_of (delete tool id) = tool

-- What an operation makes of the list of its tool. A value that is no list stays.
unfoldable pub edited : {N : Type 0} → Op N → Parsed N → Parsed N
edited (save tool x) (list xs) = list (take max_scenarios (x ∷ xs))
edited (delete tool id) (list xs) = list (kept id xs)
edited op other = other

-- The abstract state: what each tool's bucket holds.
abbrev pub View : Type 0 → Type 0
View N = String → Parsed N

unfoldable pub view_step : {N : Type 0} → View N → Op N → View N
view_step v op u = if str_eq (tool_of op) u then edited op (v u) else v u

abbrev pub view_run : {N : Type 0} → View N → List (Op N) → View N
view_run v [] = v
view_run v (op ∷ ops) = view_run (view_step v op) ops

abbrev pub size_of : {N : Type 0} → Parsed N → ℕ
size_of (list xs) = length xs
size_of other = 0

different : (t u : String) → str_eq t u ≡ false → t ≢ u
different t u e same = ground (arith, str_eq_iff t u)

Parsed-cases :
    {N : Type 0} (p : Parsed N) → ((xs : List (Scenario N)) × (p ≡ list xs)) ⊎ (p ≡ other)
Parsed-cases (list xs) = inl (xs, refl)
Parsed-cases other = inr refl

module _ {N : Type 0} (json : ScenarioJson N) where
  abbrev pub attempt : Storage → Op N → Option Storage
  attempt s (save tool x) = save_scenario json s tool x
  attempt s (delete tool id) = delete_scenario json s tool id

  -- An exception leaves the storage as it was.
  abbrev pub step : Storage → Op N → Storage
  step s op = or_else (attempt s op) s

  abbrev pub run : Storage → List (Op N) → Storage
  run s [] = s
  run s (op ∷ ops) = run (step s op) ops

  abbrev written : Op N → List (Scenario N) → List (Scenario N)
  written (save tool x) xs = take max_scenarios (x ∷ xs)
  written (delete tool id) xs = kept id xs

  step-list :
      (s : Storage) (op : Op N) (xs : List (Scenario N))
      → load_scenarios json s (tool_of op) ≡ list xs
      → step s op ≡ write_scenarios json s (tool_of op) (written op xs)
  step-list s (save tool x) xs h = rw (save-write json s tool x xs h) refl
  step-list s (delete tool id) xs h = rw (delete-write json s tool id xs h) refl

  step-other :
      (s : Storage) (op : Op N) → load_scenarios json s (tool_of op) ≡ other → step s op ≡ s
  unfolding save_scenario delete_scenario
  step-other s (save tool x) h = rw (h, save_scenario) refl
  step-other s (delete tool id) h = rw (h, delete_scenario) refl

  edited-written : (op : Op N) (xs : List (Scenario N)) → edited op (list xs) ≡ list (written op xs)
  unfolding edited
  edited-written (save tool x) xs = refl
  edited-written (delete tool id) xs = refl

  edited-other : (op : Op N) → edited op other ≡ other
  unfolding edited
  edited-other (save tool x) = refl
  edited-other (delete tool id) = refl

  load-step_self :
      (s : Storage) (op : Op N)
      → IsFaithful json
      → load_scenarios json (step s op) (tool_of op)
        ≡ edited op (load_scenarios json s (tool_of op))
  load-step_self s op f = elim (Parsed-cases (load_scenarios json s (tool_of op))) [
    | inl (xs, h) ↦
        rw (step-list s op xs h, h, edited-written op xs)
          (load-write json s (tool_of op) (written op xs) f)
    | inr h ↦ rw (step-other s op h, h) (sym (edited-other op))
  ]

  load-step_ne :
      (s : Storage) (op : Op N) (u : String)
      → tool_of op ≢ u
      → load_scenarios json (step s op) u ≡ load_scenarios json s u
  load-step_ne s op u ne = elim (Parsed-cases (load_scenarios json s (tool_of op))) [
    | inl (xs, h) ↦
        rw (step-list s op xs h) (load-write_ne json s (tool_of op) u (written op xs) ne)
    | inr h ↦ rw (step-other s op h) refl
  ]

  load-step :
      (s : Storage) (op : Op N) (u : String)
      → IsFaithful json
      → load_scenarios json (step s op) u ≡ view_step (load_scenarios json s) op u
  unfolding view_step
  load-step s op u f = elim (Bool-cases (str_eq (tool_of op) u)) [
    | inl e ↦ let same = (str_eq_iff (tool_of op) u).0 e in rw (e, sym same) (load-step_self s op f)
    | inr e ↦ rw e (load-step_ne s op u (different (tool_of op) u e))
  ]

  -- The storage implements a map from tools to lists: after any saves and deletions, what loads for
  -- any tool is what the map holds for it when it starts with what loaded before. A save puts the
  -- new scenario first and keeps five, a deletion takes away the scenarios of an id, and the
  -- other tools' lists stay.
  pub run_refines :
      (s : Storage) (ops : List (Op N))
      → IsFaithful json
      → load_scenarios json (run s ops) ≡ view_run (load_scenarios json s) ops
  run_refines s [] f = refl
  run_refines s (op ∷ ops) f =
      run_refines (step s op) ops f ∙ ap (λ v. view_run v ops) (fun_ext λ u. load-step s op u f)

length-take : {A : Type 0} (n : ℕ) (xs : List A) → length (take n xs) ≤ n
length-take zero xs = omega arith
length-take (suc n) [] = omega arith
length-take (suc n) (x ∷ xs) = omega (arith, length-take n xs)

edited-bounded : {N : Type 0} (op : Op N) (p : Parsed N) → size_of p ≤ 5 → size_of (edited op p) ≤ 5
unfolding edited
edited-bounded (save tool x) (list xs) h = omega (arith, length-take 4 xs)
edited-bounded (delete tool id) (list xs) h =
    omega (arith, length-filter_by-le (λ y. not (str_eq y.id id)) xs)
edited-bounded (save tool x) other h = h
edited-bounded (delete tool id) other h = h

view_step-bounded :
    {N : Type 0} (op : Op N) (v : View N) (u : String)
    → ((t : String) → size_of (v t) ≤ 5)
    → size_of (view_step v op u) ≤ 5
unfolding view_step
view_step-bounded op v u h = elim (Bool-cases (str_eq (tool_of op) u)) [
  | inl e ↦ rw e (edited-bounded op (v u) (h u))
  | inr e ↦ rw e (h u)
]

view_run-bounded :
    {N : Type 0} (ops : List (Op N)) (v : View N) (u : String)
    → ((t : String) → size_of (v t) ≤ 5)
    → size_of (view_run v ops u) ≤ 5
view_run-bounded [] v u h = h u
view_run-bounded (op ∷ ops) v u h =
    view_run-bounded ops (view_step v op) u λ t. view_step-bounded op v t h

module _ {N : Type 0} (json : ScenarioJson N) where
  -- If no tool's scenarios are more than five, then after any saves and deletions still none are.
  pub run-bounded :
      (s : Storage) (ops : List (Op N)) (u : String)
      → IsFaithful json
      → ((t : String) → size_of (load_scenarios json s t) ≤ 5)
      → size_of (load_scenarios json (run json s ops) u) ≤ 5
  run-bounded s ops u f h =
      rw (run_refines json s ops f) (view_run-bounded ops (load_scenarios json s) u h)
