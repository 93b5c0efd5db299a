-- ===== src/Redis.antt =====
-- The state Redis that the scraper keeps its keys in, through ioredis. Redis is no part of the
-- repository: it is a parameter, a record of the commands that the scraper sends and of the laws
-- that Redis documents for them. Nothing here makes a key expire.
pub mod Memory
use new_specter.Common.{
  ℕ, zero, suc, ◌+◌, ◌-◌, ◌*◌, ◌/◌, ◌%◌, ◌^◌, ◌≤◌, ◌<◌, min, max, String, ◌≡◌, refl, sym, ap, subst,
  ◌∙◌, fun_ext, ◌≢◌, ◌↔◌, ◌⊎◌, inl, inr, Bool, true, false, not, ◌&&◌, ◌||◌, Option, none, some,
  List, [], ◌∷◌, ◌++◌, map, arith, ℕ_discrete, ltb, leb, ◌==◌, if◌then◌else◌, ltb→lt, lt→ltb,
  leb→le, le→leb, ==_iff, Bool-cases, Option-cases, is_some, or_else, length, get_or, any_of,
  all_of, filter_by, length-append, any_of-append, get_or-any_of, any_of-false, all_of-get_or,
  all_of-filter_by, length-filter_by-le, str_eq, str_eq_iff, str_eq_refl, str_eq_ne, includes,
  includes-any_of, codes, contains, matches_ci,
}

-- The key templates of the sources, with the parts that are filled in.
pub data Key : Type 0 where
  domain_class : String → Key
  scrape_lock : String → String → Key
  batch_set : String → Key
  last_price : String → String → Key
  unchanged_streak : String → String → Key
  observed_price : String → String → Key
  http_fail : String → Key
  robots_txt : String → Key
  crawl_delay_config : String → Key
  captcha_token : String → String → String → Key
  captcha_pending : String → String → String → Key

-- What a key holds: a text, a decimal integer, a price, or the fingerprint `price:stock`.
pub data Value : Type 0 where
  text : String → Value
  integer : ℕ → Value
  price_text : ℕ → Value
  fingerprint : ℕ → Bool → Value

pub record Redis : Type 1 where
  pub State : Type 0
  pub get : State → Key → Option Value
  -- `SET key value EX|PX ttl`, with the TTL in milliseconds.
  pub set : State → Key → Value → ℕ → State
  -- The same with `NX`; `true` is the reply `OK`.
  pub set_nx : State → Key → Value → ℕ → Bool × State
  pub incr : State → Key → ℕ × State
  pub expire : State → Key → ℕ → State
  pub del : State → Key → State
  pub smembers : State → Key → List String
  pub sadd : State → Key → List String → State
  pub get-set : (s : State) (k : Key) (v : Value) (ttl : ℕ) → get (set s k v ttl) k ≡ some v
  pub get-set_ne :
      (s : State) (k j : Key) (v : Value) (ttl : ℕ) → k ≢ j → get (set s k v ttl) j ≡ get s j
  pub set_nx-free :
      (s : State) (k : Key) (v : Value) (ttl : ℕ)
      → get s k ≡ none
      → set_nx s k v ttl ≡ (true, set s k v ttl)
  pub set_nx-held :
      (s : State) (k : Key) (v w : Value) (ttl : ℕ)
      → get s k ≡ some w
      → set_nx s k v ttl ≡ (false, s)
  pub incr-absent :
      (s : State) (k : Key)
      → get s k ≡ none
      → ((incr s k).0 ≡ 1) × (get (incr s k).1 k ≡ some (integer 1))
  pub incr-integer :
      (s : State) (k : Key) (n : ℕ)
      → get s k ≡ some (integer n)
      → ((incr s k).0 ≡ n + 1) × (get (incr s k).1 k ≡ some (integer (n + 1)))
  pub get-incr_ne : (s : State) (k j : Key) → k ≢ j → get (incr s k).1 j ≡ get s j
  pub get-expire : (s : State) (k j : Key) (ttl : ℕ) → get (expire s k ttl) j ≡ get s j
  pub get-del : (s : State) (k : Key) → get (del s k) k ≡ none
  pub get-del_ne : (s : State) (k j : Key) → k ≢ j → get (del s k) j ≡ get s j
  pub get-sadd_ne :
      (s : State) (k j : Key) (xs : List String) → k ≢ j → get (sadd s k xs) j ≡ get s j
  pub smembers-sadd :
      (s : State) (k : Key) (xs : List String) (x : String)
      → includes x (smembers (sadd s k xs) k) ≡ (includes x xs || includes x (smembers s k))
  pub smembers-sadd_ne :
      (s : State) (k j : Key) (xs : List String) → k ≢ j → smembers (sadd s k xs) j ≡ smembers s j
  pub smembers-set_ne :
      (s : State) (k j : Key) (v : Value) (ttl : ℕ)
      → k ≢ j
      → smembers (set s k v ttl) j ≡ smembers s j
  pub smembers-expire :
      (s : State) (k j : Key) (ttl : ℕ) → smembers (expire s k ttl) j ≡ smembers s j
