-- ===== src/Web/Scenarios/Laws.antt =====
-- tools/scenarios.ts: what is loaded after scenarios were saved and deleted.
use new_specter.Web.Storage.{Storage, get_item-set_item, get_item-set_item_ne}
use new_specter.Web.Scenarios.{
  Scenario, list, ScenarioJson, max_scenarios, prefix, storage_key, take, kept, load_raw,
  load_scenarios, write_scenarios, save_scenario, delete_scenario,
}
use new_specter.Common.{joined-injective, String, ◌≡◌, refl, ap, ◌≢◌, some, List, ◌∷◌}

storage_key-injective : (t u : String) → storage_key t ≡ storage_key u → t ≡ u
unfolding storage_key
storage_key-injective t u h = joined-injective prefix t u h

pub storage_key-ne : (t u : String) → t ≢ u → storage_key t ≢ storage_key u
storage_key-ne t u h e = h (storage_key-injective t u e)

module _ {N : Type 0} (json : ScenarioJson N) where
  -- What `JSON` documents of a list of scenarios: its text is not empty and is parsed to the list.
  abbrev pub IsFaithful : Type 0
  IsFaithful = (xs : List (Scenario N)) → load_raw json (some (json.stringify xs)) ≡ list xs

  pub load-write :
      (s : Storage) (tool : String) (xs : List (Scenario N))
      → IsFaithful
      → load_scenarios json (write_scenarios json s tool xs) tool ≡ list xs
  unfolding load_scenarios
  load-write s tool xs f = rw (get_item-set_item s (storage_key tool) (json.stringify xs)) (f xs)

  pub load-write_ne :
      (s : Storage) (tool u : String) (xs : List (Scenario N))
      → tool ≢ u
      → load_scenarios json (write_scenarios json s tool xs) u ≡ load_scenarios json s u
  unfolding load_scenarios
  load-write_ne s tool u xs h = ap (load_raw json) (
      get_item-set_item_ne s (storage_key tool) (storage_key u) (json.stringify xs)
        (storage_key-ne tool u h))

  pub save-write :
      (s : Storage) (tool : String) (x : Scenario N) (xs : List (Scenario N))
      → load_scenarios json s tool ≡ list xs
      → save_scenario json s tool x
        ≡ some (write_scenarios json s tool (take max_scenarios (x ∷ xs)))
  unfolding save_scenario
  save-write s tool x xs h = rw (h, save_scenario) refl

  -- If a tool's scenarios load as a list, then after a new one is saved, the new one and the first
  -- four of the list load for that tool, and any other tool's load as before.
  pub load-save :
      (s : Storage) (tool u : String) (x : Scenario N) (xs : List (Scenario N))
      → IsFaithful
      → tool ≢ u
      → load_scenarios json s tool ≡ list xs
      → (s' : Storage) × (save_scenario json s tool x ≡ some s')
        × (load_scenarios json s' tool ≡ list (x ∷ take 4 xs))
        × (load_scenarios json s' u ≡ load_scenarios json s u)
  load-save s tool u x xs f ne h = (
    write_scenarios json s tool (take max_scenarios (x ∷ xs)),
    save-write s tool x xs h,
    load-write s tool (x ∷ take 4 xs) f,
    load-write_ne s tool u (x ∷ take 4 xs) ne,
  )

  pub delete-write :
      (s : Storage) (tool id : String) (xs : List (Scenario N))
      → load_scenarios json s tool ≡ list xs
      → delete_scenario json s tool id ≡ some (write_scenarios json s tool (kept id xs))
  unfolding delete_scenario
  delete-write s tool id xs h = rw (h, delete_scenario) refl
