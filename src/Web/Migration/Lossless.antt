-- ===== src/Web/Migration/Lossless.antt =====
-- tools/migrate-scenarios.ts and use-migrate-scenarios.ts: what is left in the browser and saved in
-- the account when requests fail.
use new_specter.Web.Storage.{Storage, get_item, remove_item, get_item-remove_item_ne}
use new_specter.Web.Scenarios.{Parsed, list, other, ScenarioJson, prefix}
use new_specter.Web.Migration.{
  Group, Payload, group_of, payloads_of, to_calculation_payloads, group_key, clear_local_scenarios,
  bucket, collect_keys, collect_local_scenarios, save_all, import_groups, migrate,
}
use mathlib.Core.List.{append-nil, append_assoc}
use new_specter.Common.{
  joined, after, joined-after, ℕ, suc, ◌+◌, String, ◌≡◌, refl, sym, ap, ◌∙◌, ◌⊎◌, inl, inr, Bool,
  true, false, Option, none, some, List, [], ◌∷◌, ◌++◌, arith, Bool-cases, Option-cases, or_else,
  length, any_of, str_eq, str_eq_iff,
}

abbrev pub has_key : {N : Type 0} → String → List (Group N) → Bool
has_key k = any_of (λ g. str_eq (group_key g) k)

pub get_item-clear :
    {N : Type 0} (gs : List (Group N)) (s : Storage) (k : String)
    → has_key k gs ≡ false
    → get_item (clear_local_scenarios gs s) k ≡ get_item s k
get_item-clear [] s k h = refl
get_item-clear (g ∷ gs) s k h = ground (
  arith,
  get_item-clear gs (remove_item s (group_key g)) k,
  get_item-remove_item_ne s (group_key g) k,
  str_eq_iff (group_key g) k,
)

pub save_all-ok :
    {N : Type 0} (accepts : ℕ → Bool) (n : ℕ) (ps : List (Payload N))
    → (save_all accepts n ps).1 ≡ true
    → (save_all accepts n ps).0 ≡ ps
save_all-ok accepts n [] h = refl
save_all-ok accepts n (p ∷ ps) h = ground (arith, save_all-ok accepts (suc n) ps)

group_of-group :
    {N : Type 0} (tool : String) (p : Option (Parsed N)) (g : Group N)
    → group_of tool p ≡ some g
    → (g.tool_id ≡ tool) × (p ≡ some (list g.scenarios))
unfolding group_of
group_of-group tool none g h = cc
group_of-group tool (some other) g h = cc
group_of-group tool (some (list [])) g h = cc
group_of-group tool (some (list (x ∷ xs))) g h = ground arith

-- Where the payloads of a group stand among all that were saved.
abbrev pub IsSaved : {N : Type 0} → Group N → List (Payload N) → Type 0
IsSaved {N} g saved =
    (before : List (Payload N)) × (behind : List (Payload N)) × (saved
      ≡ before ++ (payloads_of g.tool_id g.scenarios ++ behind))

module _ {N : Type 0} (json : ScenarioJson N) where
  abbrev pub IsStored : Storage → Group N → Type 0
  IsStored s g = bucket json s (group_key g) ≡ some g

  abbrev pub AllStored : Storage → List (Group N) → Type 0
  AllStored s [] = Unit {0}
  AllStored s (g ∷ gs) = IsStored s g × AllStored s gs

  pub bucket-parts :
      (s : Storage) (k : String) (g : Group N)
      → bucket json s k ≡ some g
      → (k ≡ group_key g) × (json.parse (or_else (get_item s k) "[]") ≡ some (list g.scenarios))
  unfolding bucket
  bucket-parts s k g h = elim (Option-cases (after prefix k)) [
    | inl e ↦ cc (rw (e, bucket) at h)
    | inr (tool, e) ↦
        let (t, p) =
          group_of-group tool (json.parse (or_else (get_item s k) "[]")) g (rw (e, bucket) at h) in
        (joined-after prefix k tool e ∙ ap (joined prefix) (sym t), p)
  ]

  bucket-IsStored :
      (s : Storage) (k : String) (g : Group N) → bucket json s k ≡ some g → IsStored s g
  bucket-IsStored s k g h = ap (bucket json s) (sym (bucket-parts s k g h).0) ∙ h

  pub collect_keys-AllStored : (s xs : Storage) → AllStored s (collect_keys json s xs)
  collect_keys-AllStored s [] = tt
  collect_keys-AllStored s (x ∷ xs) = elim (Option-cases (bucket json s x.0)) [
    | inl e ↦ rw e (collect_keys-AllStored s xs)
    | inr (g, e) ↦ rw e (bucket-IsStored s x.0 g e, collect_keys-AllStored s xs)
  ]

  IsSaved-later :
      (g : Group N) (front saved : List (Payload N)) → IsSaved g saved → IsSaved g (front ++ saved)
  IsSaved-later g front saved (before, behind, e) =
      (front ++ before, behind, ap (λ t. front ++ t) e ∙ sym (append_assoc front before _))

  -- A key that is cleared is the key of a group whose payloads were all saved.
  imported_found :
      (accepts : ℕ → Bool) (n : ℕ) (s : Storage) (gs : List (Group N)) (k : String)
      → AllStored s gs
      → has_key k (import_groups accepts n gs).1 ≡ true
      → (g : Group N) × (group_key g ≡ k) × IsStored s g × IsSaved g (import_groups accepts n gs).0
  imported_found accepts n s [] k a h = cc
  imported_found accepts n s (g ∷ gs) k (st, a) h =
      let ps : List (Payload N) = to_calculation_payloads (g ∷ []) in
      let m : ℕ = n + length ps in
      elim (Bool-cases (save_all accepts n ps).1) [
        | inl e ↦ elim (Bool-cases (str_eq (group_key g) k)) [
          | inl same ↦ (
            g,
            (str_eq_iff (group_key g) k).0 same,
            st,
            (
              [],
              (import_groups accepts m gs).0,
              ap (λ t. t ++ (import_groups accepts m gs).0)
                  (save_all-ok accepts n ps e ∙ append-nil (payloads_of g.tool_id g.scenarios)),
            ),
          )
          | inr ne ↦
              let (f, fk, fs, saved) = imported_found accepts m s gs k a (rw (e, ne) at h) in
              (f, fk, fs, IsSaved-later f (save_all accepts n ps).0 _ saved)
        ]
        | inr e ↦
            let (f, fk, fs, saved) = imported_found accepts m s gs k a (rw e at h) in
            (f, fk, fs, IsSaved-later f (save_all accepts n ps).0 _ saved)
      ]

  abbrev pub visit : (ℕ → Bool) → Storage → List (Payload N) × List (Group N)
  visit accepts s = import_groups accepts 0 (collect_local_scenarios json s)

  cleared-IsSaved :
      (accepts : ℕ → Bool) (s : Storage) (k : String)
      → (get_item (clear_local_scenarios (visit accepts s).1 s) k ≡ get_item s k)
        ⊎ ((g : Group N) × (group_key g ≡ k)
            × (json.parse (or_else (get_item s k) "[]") ≡ some (list g.scenarios))
            × IsSaved g (visit accepts s).0)
  cleared-IsSaved accepts s k = elim (Bool-cases (has_key k (visit accepts s).1)) [
    | inl e ↦
        let gs : List (Group N) = collect_local_scenarios json s in
        let (g, gk, st, saved) = imported_found accepts 0 s gs k (collect_keys-AllStored s s) e in
        inr (
          g,
          gk,
          ap (λ t. json.parse (or_else (get_item s t) "[]")) (sym gk)
              ∙ (bucket-parts s (group_key g) g st).1,
          saved,
        )
    | inr e ↦ inl (get_item-clear (visit accepts s).1 s k e)
  ]

  -- Whatever requests fail, after the migration every item of the browser's storage is there as it
  -- was, or its key is the prefix and a tool's id, its text is parsed to a list of scenarios, and
  -- one payload for each of them was saved in the account.
  pub nothing_lost :
      (enabled started preview : Bool) (accepts : ℕ → Bool) (s : Storage) (k : String)
      → let (saved, s') = migrate json enabled started preview accepts s in
        (get_item s' k ≡ get_item s k)
        ⊎ ((g : Group N) × (group_key g ≡ k)
            × (json.parse (or_else (get_item s k) "[]") ≡ some (list g.scenarios))
            × IsSaved g saved)
  unfolding migrate
  nothing_lost false started preview accepts s k = inl refl
  nothing_lost true true preview accepts s k = inl refl
  nothing_lost true false true accepts s k = inl refl
  nothing_lost true false false accepts s k = cleared-IsSaved accepts s k
