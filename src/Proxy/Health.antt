-- ===== src/Proxy/Health.antt =====
-- proxy/manager.ts, lines 30-90: the health of a proxy, the injectable store and its default.
use new_specter.Common.{
  ℕ, String, ◌≡◌, refl, Option, none, some, List, [], ◌∷◌, arith, if◌then◌else◌, or_else, str_eq,
  str_eq_iff,
}

abbrev pub default_healthy_score : ℕ
default_healthy_score = 100

pub record ProxyHealth : Type 0 where
  pub score : ℕ
  pub cooldown_until : ℕ

-- What a proxy that was never reported looks like.
abbrev pub fresh_health : ProxyHealth
fresh_health = record { score = default_healthy_score; cooldown_until = 0 }

-- `interface ProxyHealthStore`. Callers rely on the law: a write is read back, and touches no
-- other proxy.
pub record ProxyHealthStore : Type 1 where
  pub State : Type 0
  pub get : State → String → ProxyHealth
  pub set : State → String → ProxyHealth → State
  pub get-set :
      (s : State) (ip j : String) (h : ProxyHealth)
      → get (set s ip h) j ≡ (if str_eq ip j then h else get s j)

-- A `Map` with text keys, in insertion order. A write to a present key keeps its place.
module _ {ℓ} {V : Type ℓ} where
  abbrev pub map_get : List (String × V) → String → Option V
  map_get [] k = none
  map_get ((j, v) ∷ m) k = if str_eq j k then some v else map_get m k

  abbrev pub map_set : List (String × V) → String → V → List (String × V)
  map_set [] k v = (k, v) ∷ []
  map_set ((j, w) ∷ m) k v = if str_eq j k then (k, v) ∷ m else (j, w) ∷ map_set m k v

  pub map_get-map_set :
      (m : List (String × V)) (k j : String) (v : V)
      → map_get (map_set m k v) j ≡ (if str_eq k j then some v else map_get m j)
  map_get-map_set [] k j v = refl
  map_get-map_set ((i, w) ∷ m) k j v =
      ground (arith, str_eq_iff k j, str_eq_iff i k, str_eq_iff i j, map_get-map_set m k j v)

-- `class InMemoryProxyHealthStore`.
abbrev pub HealthMap : Type 0
HealthMap = List (String × ProxyHealth)

unfoldable pub in_memory_get : HealthMap → String → ProxyHealth
in_memory_get m ip = or_else (map_get m ip) fresh_health

unfoldable pub in_memory_set : HealthMap → String → ProxyHealth → HealthMap
in_memory_set m ip h = map_set m ip h

pub in_memory-get-set :
    (m : HealthMap) (ip j : String) (h : ProxyHealth)
    → in_memory_get (in_memory_set m ip h) j ≡ (if str_eq ip j then h else in_memory_get m j)
unfolding in_memory_get in_memory_set
in_memory-get-set m ip j h = ground (arith, map_get-map_set m ip j h)

abbrev pub in_memory_store : ProxyHealthStore
in_memory_store = record {
  State = HealthMap;
  get = in_memory_get;
  set = in_memory_set;
  get-set = in_memory-get-set;
}
