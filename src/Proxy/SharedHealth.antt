-- ===== src/Proxy/SharedHealth.antt =====
-- proxy/redis-health-store.ts: the health store that mirrors its writes to Redis and merges what
-- other pods wrote. The hash of a proxy's URL is a parameter, and Redis's replies are arguments.
use new_specter.Proxy.Health.{
  ProxyHealth, ProxyHealthStore, HealthMap, fresh_health, map_get, map_set, map_get-map_set,
}
use new_specter.Common.{
  ℕ, zero, suc, ◌+◌, ◌-◌, ◌≤◌, ◌<◌, min, max, String, ◌≡◌, Option, none, some, List, [], ◌∷◌, map,
  arith, if◌then◌else◌, or_else, length, get_or, str_eq, str_eq_iff, str_eq_refl,
}

abbrev pub key_grace_ms : ℕ
key_grace_ms = 60_000

-- One `SET key json PX ttl` that was sent.
pub record MirrorWrite : Type 0 where
  pub key : String
  pub health : ProxyHealth
  pub ttl : ℕ

pub record SharedState : Type 0 where
  pub health_map : HealthMap
  pub key_by_url : List (String × String)
  pub mirror : List MirrorWrite
  pub clock : ℕ

module _ (hash : String → String) where
  unfoldable pub proxy_health_key : String → String
  proxy_health_key url = hash url

  -- The key, and the table with the key filled in.
  unfoldable pub key_for : List (String × String) → String → String × List (String × String)
  key_for keys url = elim (map_get keys url) [
    | some k ↦ (k, keys)
    | none ↦ (proxy_health_key url, map_set keys url (proxy_health_key url))
  ]

  unfoldable pub fill_keys : List (String × String) → List String → List (String × String)
  fill_keys keys [] = keys
  fill_keys keys (u ∷ us) = fill_keys (map_set keys u (proxy_health_key u)) us

  -- The constructor.
  unfoldable pub make_shared : List String → ℕ → SharedState
  unfolding fill_keys
  make_shared urls now = record {
    health_map = [];
    key_by_url = fill_keys [] urls;
    mirror = [];
    clock = now;
  }

  unfoldable pub shared_get : SharedState → String → ProxyHealth
  shared_get s url = or_else (map_get s.health_map url) fresh_health

  unfoldable pub shared_set : SharedState → String → ProxyHealth → SharedState
  unfolding key_for
  shared_set s url health =
      let ttl = max key_grace_ms (health.cooldown_until - s.clock + key_grace_ms) in
      let (key, keys) = key_for s.key_by_url url in
      record s {
        health_map = map_set s.health_map url health;
        key_by_url = keys;
        mirror = record { key = key; health = health; ttl = ttl } ∷ s.mirror;
      }

  pub shared-get-set :
      (s : SharedState) (ip j : String) (h : ProxyHealth)
      → shared_get (shared_set s ip h) j ≡ (if str_eq ip j then h else shared_get s j)
  unfolding shared_get shared_set
  shared-get-set s ip j h = ground (arith, map_get-map_set s.health_map ip j h)

  -- The store that `ProxyManager` is given in production meets the interface.
  abbrev pub shared_store : ProxyHealthStore
  shared_store = record {
    State = SharedState;
    get = shared_get;
    set = shared_set;
    get-set = shared-get-set;
  }

  -- A mirrored ban outlives its cooldown: Redis keeps it at least until it is over.
  pub mirror_outlives_cooldown :
      (s : SharedState) (url : String) (h : ProxyHealth) (w : MirrorWrite) (rest : List MirrorWrite)
      → (shared_set s url h).mirror ≡ w ∷ rest
      → (w.health ≡ h) × (h.cooldown_until < s.clock + w.ttl) × (rest ≡ s.mirror)
  unfolding shared_set
  mirror_outlives_cooldown s url h w rest e = ground arith

-- The stricter of two views of a proxy.
abbrev pub stricter : ProxyHealth → ProxyHealth → ProxyHealth
stricter local remote = record {
  score = min local.score remote.score;
  cooldown_until = max local.cooldown_until remote.cooldown_until;
}

-- The `forEach` of `refreshOnce`. A missing, empty or malformed reply is `none`.
unfoldable pub merge_all : HealthMap → List String → List (Option ProxyHealth) → HealthMap
merge_all m [] values = m
merge_all m (url ∷ urls) [] = merge_all m urls []
merge_all m (url ∷ urls) (none ∷ values) = merge_all m urls values
merge_all m (url ∷ urls) (some remote ∷ values) =
    merge_all (map_set m url (stricter (or_else (map_get m url) fresh_health) remote)) urls values

-- `refreshOnce`, with the reply of `mget`; `none` is a failed call.
unfoldable pub refresh_once : SharedState → Option (List (Option ProxyHealth)) → SharedState
unfolding merge_all
refresh_once s none = s
refresh_once s (some values) = record s {
  health_map = merge_all s.health_map (map (λ (p : String × String). p.0) s.key_by_url) values;
}

abbrev pub IsStricter : ProxyHealth → ProxyHealth → Type 0
IsStricter h g = (h.score ≤ g.score) × (g.cooldown_until ≤ h.cooldown_until)

abbrev health_in : HealthMap → String → ProxyHealth
health_in m j = or_else (map_get m j) fresh_health

merge_all-IsStricter :
    (m : HealthMap) (urls : List String) (values : List (Option ProxyHealth)) (j : String)
    → IsStricter (health_in (merge_all m urls values) j) (health_in m j)
unfolding merge_all
merge_all-IsStricter m [] values j = omega arith
merge_all-IsStricter m (u ∷ us) [] j = merge_all-IsStricter m us [] j
merge_all-IsStricter m (u ∷ us) (none ∷ vs) j = merge_all-IsStricter m us vs j
merge_all-IsStricter m (u ∷ us) (some r ∷ vs) j =
    let h = stricter (health_in m u) r in
    ground
      (arith, map_get-map_set m u j h, str_eq_iff u j, merge_all-IsStricter (map_set m u h) us vs j)

merge_all-adopts :
    (m : HealthMap) (urls : List String) (values : List (Option ProxyHealth)) (i : ℕ)
    (r : ProxyHealth)
    → i < length urls
    → get_or values i none ≡ some r
    → IsStricter (health_in (merge_all m urls values) (get_or urls i "")) r
unfolding merge_all
merge_all-adopts m [] values i r h e = elim h [ ]
merge_all-adopts m (u ∷ us) [] i r h e = cc
merge_all-adopts m (u ∷ us) (none ∷ vs) zero r h e = cc
merge_all-adopts m (u ∷ us) (some q ∷ vs) zero r h e =
    let g = stricter (health_in m u) q in
    ground
      (arith, map_get-map_set m u u g, str_eq_refl u, merge_all-IsStricter (map_set m u g) us vs u)
merge_all-adopts m (u ∷ us) (none ∷ vs) (suc i) r h e = merge_all-adopts m us vs i r (omega arith) e
merge_all-adopts m (u ∷ us) (some q ∷ vs) (suc i) r h e =
    merge_all-adopts (map_set m u (stricter (health_in m u) q)) us vs i r (omega arith) e

-- A refresh only makes the local view stricter, for every proxy, and a failed one changes nothing.
pub refresh_once-IsStricter :
    (hash : String → String) (s : SharedState) (reply : Option (List (Option ProxyHealth)))
    (j : String)
    → IsStricter (shared_get hash (refresh_once s reply) j) (shared_get hash s j)
unfolding refresh_once shared_get
refresh_once-IsStricter hash s none j = omega arith
refresh_once-IsStricter hash s (some values) j =
    merge_all-IsStricter s.health_map (map (λ (p : String × String). p.0) s.key_by_url) values j

-- So a ban that any pod wrote holds here as well: the view of a proxy whose record was read is at
-- least as strict as that record.
pub refresh_once-adopts :
    (hash : String → String) (s : SharedState) (values : List (Option ProxyHealth)) (i : ℕ)
    (r : ProxyHealth)
    → let urls = map (λ (p : String × String). p.0) s.key_by_url in
      i < length urls
      → get_or values i none ≡ some r
      → IsStricter (shared_get hash (refresh_once s (some values)) (get_or urls i "")) r
unfolding refresh_once shared_get
refresh_once-adopts hash s values i r h e =
    merge_all-adopts s.health_map (map (λ (p : String × String). p.0) s.key_by_url) values i r h e
