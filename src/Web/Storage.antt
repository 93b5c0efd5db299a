-- ===== src/Web/Storage.antt =====
-- The browser's `localStorage` as the sources of specter-web use it: its items in the order of
-- `key(i)`.
use new_specter.Common.{
  String, ◌≡◌, refl, ◌≢◌, Option, none, some, List, [], ◌∷◌, arith, if◌then◌else◌, str_eq,
  str_eq_iff, str_eq_refl,
}

abbrev pub Storage : Type 0
Storage = List (String × String)

abbrev pub get_item : Storage → String → Option String
get_item [] k = none
get_item (x ∷ s) k = if str_eq x.0 k then some x.1 else get_item s k

-- An item that is there keeps its place.
abbrev pub set_item : Storage → String → String → Storage
set_item [] k v = (k, v) ∷ []
set_item (x ∷ s) k v = if str_eq x.0 k then (x.0, v) ∷ s else x ∷ set_item s k v

abbrev pub remove_item : Storage → String → Storage
remove_item [] k = []
remove_item (x ∷ s) k = if str_eq x.0 k then remove_item s k else x ∷ remove_item s k

pub get_item-set_item : (s : Storage) (k v : String) → get_item (set_item s k v) k ≡ some v
get_item-set_item [] k v = ground (arith, str_eq_refl k)
get_item-set_item (x ∷ s) k v = ground (arith, get_item-set_item s k v)

pub get_item-set_item_ne :
    (s : Storage) (k j v : String) → k ≢ j → get_item (set_item s k v) j ≡ get_item s j
get_item-set_item_ne [] k j v h = ground (arith, str_eq_iff k j)
get_item-set_item_ne (x ∷ s) k j v h =
    ground (arith, get_item-set_item_ne s k j v h, str_eq_iff x.0 k, str_eq_iff x.0 j)

pub get_item-remove_item_ne :
    (s : Storage) (k j : String) → k ≢ j → get_item (remove_item s k) j ≡ get_item s j
get_item-remove_item_ne [] k j h = refl
get_item-remove_item_ne (x ∷ s) k j h =
    ground (arith, get_item-remove_item_ne s k j h, str_eq_iff x.0 k, str_eq_iff x.0 j)

pub get_item-remove_item : (s : Storage) (k : String) → get_item (remove_item s k) k ≡ none
get_item-remove_item [] k = refl
get_item-remove_item (x ∷ s) k = ground (arith, get_item-remove_item s k)
