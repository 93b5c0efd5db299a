-- ===== src/Web/Migration/Complete.antt =====
-- tools/migrate-scenarios.ts and use-migrate-scenarios.ts: a visit without failures.
use new_specter.Web.Storage.{
  Storage, get_item, remove_item, get_item-remove_item_ne, get_item-remove_item,
}
use new_specter.Web.Scenarios.{list, ScenarioJson, prefix}
use new_specter.Web.Migration.{
  Group, Payload, group_of, push_some, payloads_of, to_calculation_payloads, group_key,
  clear_local_scenarios, bucket, collect_keys, collect_local_scenarios, save_all, import_groups,
  migrate,
}
use new_specter.Web.Migration.Lossless.{has_key, get_item-clear, bucket-parts}
use mathlib.Core.List.{append-nil}
use new_specter.Common.{
  after, ℕ, suc, ◌+◌, String, ◌≡◌, refl, sym, ap, ◌∙◌, inl, inr, Bool, true, false, Option, none,
  some, List, [], ◌∷◌, ◌++◌, arith, Bool-cases, Option-cases, length, str_eq, str_eq_iff,
}

module _ {N : Type 0} (accepts : ℕ → Bool) (willing : (n : ℕ) → accepts n ≡ true) where
  save_all-all : (n : ℕ) (ps : List (Payload N)) → save_all accepts n ps ≡ (ps, true)
  save_all-all n [] = refl
  save_all-all n (p ∷ ps) = rw (willing n, save_all-all (suc n) ps) refl

  import_groups-all :
      (n : ℕ) (gs : List (Group N)) → import_groups accepts n gs ≡ (to_calculation_payloads gs, gs)
  import_groups-all n [] = refl
  import_groups-all n (g ∷ gs) =
      let ps : List (Payload N) = to_calculation_payloads (g ∷ []) in
      rw (save_all-all n ps, import_groups-all (n + length ps) gs)
        (ap (λ t. (t ++ to_calculation_payloads gs, g ∷ gs))
          (append-nil (payloads_of g.tool_id g.scenarios)))

get_item-clear_none :
    {N : Type 0} (gs : List (Group N)) (s : Storage) (k : String)
    → get_item s k ≡ none
    → get_item (clear_local_scenarios gs s) k ≡ none
get_item-clear_none [] s k h = h
get_item-clear_none (g ∷ gs) s k h =
    get_item-clear_none gs (remove_item s (group_key g)) k
      (elim (Bool-cases (str_eq (group_key g) k)) [
        | inl e ↦ rw (sym ((str_eq_iff (group_key g) k).0 e)) (get_item-remove_item s (group_key g))
        | inr e ↦
            get_item-remove_item_ne s (group_key g) k (ground (arith, str_eq_iff (group_key g) k))
            ∙ h
      ])

get_item-clear_in :
    {N : Type 0} (gs : List (Group N)) (s : Storage) (k : String)
    → has_key k gs ≡ true
    → get_item (clear_local_scenarios gs s) k ≡ none
get_item-clear_in [] s k h = cc
get_item-clear_in (g ∷ gs) s k h = elim (Bool-cases (str_eq (group_key g) k)) [
  | inl e ↦
      get_item-clear_none gs (remove_item s (group_key g)) k
        (rw (sym ((str_eq_iff (group_key g) k).0 e)) (get_item-remove_item s (group_key g)))
  | inr e ↦ get_item-clear_in gs (remove_item s (group_key g)) k (rw e at h)
]

module _ {N : Type 0} (json : ScenarioJson N) where
  bucket-empty :
      (s : Storage) (k : String)
      → json.parse "[]" ≡ some (list [])
      → get_item s k ≡ none
      → bucket json s k ≡ none
  unfolding bucket group_of
  bucket-empty s k j e = elim (Option-cases (after prefix k)) [
    | inl a ↦ rw (a, bucket) refl
    | inr (tool, a) ↦ rw (a, bucket, e, j) refl
  ]

  bucket-same :
      (s s' : Storage) (k : String)
      → get_item s' k ≡ get_item s k
      → bucket json s' k ≡ bucket json s k
  unfolding bucket
  bucket-same s s' k e = elim (Option-cases (after prefix k)) [
    | inl a ↦ rw (a, bucket) refl
    | inr (tool, a) ↦ rw (a, bucket, e) refl
  ]

  collect_keys-has_key :
      (s xs : Storage) (k raw : String) (g : Group N)
      → get_item xs k ≡ some raw
      → bucket json s k ≡ some g
      → has_key k (collect_keys json s xs) ≡ true
  collect_keys-has_key s [] k raw g h b = cc
  collect_keys-has_key s (x ∷ xs) k raw g h b = elim (Bool-cases (str_eq x.0 k)) [
    | inl e ↦
        let same = (str_eq_iff x.0 k).0 e in
        rw (same, b) (ground (arith, str_eq_iff (group_key g) k, (bucket-parts json s k g b).0))
    | inr e ↦
        let ih = collect_keys-has_key s xs k raw g (rw e at h) b in
        push_some-has_key (bucket json s x.0) (collect_keys json s xs) k ih
  ]
    where
      push_some-has_key :
          (o : Option (Group N)) (gs : List (Group N)) (k : String)
          → has_key k gs ≡ true
          → has_key k (push_some o gs) ≡ true
      push_some-has_key none gs k h = h
      push_some-has_key (some g) gs k h = ground arith

  collect_keys-none :
      (s xs : Storage) → ((k : String) → bucket json s k ≡ none) → collect_keys json s xs ≡ []
  collect_keys-none s [] h = refl
  collect_keys-none s (x ∷ xs) h = rw (h x.0) (collect_keys-none s xs h)

  bucket-cleared :
      (s : Storage) (k : String)
      → json.parse "[]" ≡ some (list [])
      → bucket json (clear_local_scenarios (collect_local_scenarios json s) s) k ≡ none
  bucket-cleared s k j =
      let gs : List (Group N) = collect_local_scenarios json s in
      let s' : Storage = clear_local_scenarios gs s in
      elim (Bool-cases (has_key k gs)) [
        | inl e ↦ bucket-empty s' k j (get_item-clear_in gs s k e)
        | inr e ↦ elim (Option-cases (get_item s k)) [
          | inl none_there ↦ bucket-empty s' k j (get_item-clear_none gs s k none_there)
          | inr (raw, there) ↦ elim (Option-cases (bucket json s k)) [
            | inl b ↦ bucket-same s s' k (get_item-clear gs s k e) ∙ b
            | inr (g, b) ↦ cc (collect_keys-has_key s s k raw g there b)
          ]
        ]
      ]

  -- If the API accepts every request and the hook runs, then exactly the payloads of the scenarios
  -- that were collected are saved, in their order, and nothing is left that a later visit would
  -- collect.
  pub all_imported :
      (accepts : ℕ → Bool) (s : Storage)
      → ((n : ℕ) → accepts n ≡ true)
      → json.parse "[]" ≡ some (list [])
      → let (saved, s') = migrate json true false false accepts s in
        (saved ≡ to_calculation_payloads (collect_local_scenarios json s))
        × (collect_local_scenarios json s' ≡ [])
  unfolding migrate
  all_imported accepts s willing j =
      let gs : List (Group N) = collect_local_scenarios json s in
      rw (import_groups-all accepts willing 0 gs)
        (refl, collect_keys-none (clear_local_scenarios gs s) _ λ k. bucket-cleared s k j)
