-- ===== src/Redis/Memory.antt =====
-- An instance of the commands that keeps what the keys hold as functions, for runs on concrete
-- inputs.
use new_specter.Redis.{
  Redis, Key, domain_class, scrape_lock, batch_set, last_price, unchanged_streak, observed_price,
  http_fail, captcha_token, captcha_pending, robots_txt, crawl_delay_config, Value, integer,
}
use new_specter.Common.{
  ℕ, ◌+◌, String, ◌≡◌, refl, ap, ◌≢◌, inl, inr, Bool, true, false, ◌&&◌, ◌||◌, Option, none, some,
  List, [], ◌++◌, arith, if◌then◌else◌, Bool-cases, any_of-append, str_eq, str_eq_iff, str_eq_refl,
  includes,
}

abbrev pub key_eq : Key → Key → Bool
key_eq (domain_class a) (domain_class b) = str_eq a b
key_eq (scrape_lock a p) (scrape_lock b q) = str_eq a b && str_eq p q
key_eq (batch_set a) (batch_set b) = str_eq a b
key_eq (last_price a p) (last_price b q) = str_eq a b && str_eq p q
key_eq (unchanged_streak a p) (unchanged_streak b q) = str_eq a b && str_eq p q
key_eq (observed_price a p) (observed_price b q) = str_eq a b && str_eq p q
key_eq (http_fail a) (http_fail b) = str_eq a b
key_eq (robots_txt a) (robots_txt b) = str_eq a b
key_eq (crawl_delay_config a) (crawl_delay_config b) = str_eq a b
key_eq (captcha_token a p k) (captcha_token b q l) = str_eq a b && str_eq p q && str_eq k l
key_eq (captcha_pending a p k) (captcha_pending b q l) = str_eq a b && str_eq p q && str_eq k l
key_eq _ _ = false

pub key_eq_refl : (k : Key) → key_eq k k ≡ true
key_eq_refl (domain_class a) = str_eq_refl a
key_eq_refl (scrape_lock a p) = ground (arith, str_eq_refl a, str_eq_refl p)
key_eq_refl (batch_set a) = str_eq_refl a
key_eq_refl (last_price a p) = ground (arith, str_eq_refl a, str_eq_refl p)
key_eq_refl (unchanged_streak a p) = ground (arith, str_eq_refl a, str_eq_refl p)
key_eq_refl (observed_price a p) = ground (arith, str_eq_refl a, str_eq_refl p)
key_eq_refl (http_fail a) = str_eq_refl a
key_eq_refl (robots_txt a) = str_eq_refl a
key_eq_refl (crawl_delay_config a) = str_eq_refl a
key_eq_refl (captcha_token a p k) = ground (arith, str_eq_refl a, str_eq_refl p, str_eq_refl k)
key_eq_refl (captcha_pending a p k) = ground (arith, str_eq_refl a, str_eq_refl p, str_eq_refl k)

key_eq-same : (k j : Key) → key_eq k j ≡ true → k ≡ j
key_eq-same (domain_class a) (domain_class b) e = ap domain_class ((str_eq_iff a b).0 e)
key_eq-same (scrape_lock a p) (scrape_lock b q) e = ground (arith, str_eq_iff a b, str_eq_iff p q)
key_eq-same (batch_set a) (batch_set b) e = ap batch_set ((str_eq_iff a b).0 e)
key_eq-same (last_price a p) (last_price b q) e = ground (arith, str_eq_iff a b, str_eq_iff p q)
key_eq-same (unchanged_streak a p) (unchanged_streak b q) e =
    ground (arith, str_eq_iff a b, str_eq_iff p q)
key_eq-same (observed_price a p) (observed_price b q) e =
    ground (arith, str_eq_iff a b, str_eq_iff p q)
key_eq-same (http_fail a) (http_fail b) e = ap http_fail ((str_eq_iff a b).0 e)
key_eq-same (robots_txt a) (robots_txt b) e = ap robots_txt ((str_eq_iff a b).0 e)
key_eq-same (crawl_delay_config a) (crawl_delay_config b) e =
    ap crawl_delay_config ((str_eq_iff a b).0 e)
key_eq-same (captcha_token a p k) (captcha_token b q l) e =
    ground (arith, str_eq_iff a b, str_eq_iff p q, str_eq_iff k l)
key_eq-same (captcha_pending a p k) (captcha_pending b q l) e =
    ground (arith, str_eq_iff a b, str_eq_iff p q, str_eq_iff k l)
key_eq-same _ _ e = cc

pub key_eq_ne : (k j : Key) → k ≢ j → key_eq k j ≡ false
key_eq_ne k j h = elim (Bool-cases (key_eq k j)) [
  | inl e ↦ elim (h (key_eq-same k j e)) [ ]
  | inr e ↦ e
]

pub record Memory : Type 0 where
  pub values : Key → Option Value
  pub sets : Key → List String

abbrev pub put : Memory → Key → Option Value → Memory
put s k v = record s { values = λ j. if key_eq k j then v else s.values j }

pub put-get : (s : Memory) (k : Key) (v : Option Value) → (put s k v).values k ≡ v
put-get s k v = ground (arith, key_eq_refl k)

pub put-get_ne :
    (s : Memory) (k j : Key) (v : Option Value) → k ≢ j → (put s k v).values j ≡ s.values j
put-get_ne s k j v h = ground (arith, key_eq_ne k j h)

abbrev pub number_of : Option Value → ℕ
number_of (some (integer n)) = n
number_of _ = 0

abbrev pub put_new : Memory → Key → Value → Bool × Memory
put_new s k v = elim (s.values k) [ none ↦ (true, put s k (some v)) | some w ↦ (false, s) ]

abbrev pub add_members : Memory → Key → List String → Memory
add_members s k xs = record s { sets = λ j. if key_eq k j then xs ++ s.sets j else s.sets j }

abbrev pub count_up : Memory → Key → ℕ × Memory
count_up s k = let n = number_of (s.values k) + 1 in (n, put s k (some (integer n)))

pub count_up-absent :
    (s : Memory) (k : Key)
    → s.values k ≡ none
    → ((count_up s k).0 ≡ 1) × ((count_up s k).1.values k ≡ some (integer 1))
count_up-absent s k e = ground (arith, key_eq_refl k)

pub count_up-integer :
    (s : Memory) (k : Key) (n : ℕ)
    → s.values k ≡ some (integer n)
    → ((count_up s k).0 ≡ n + 1) × ((count_up s k).1.values k ≡ some (integer (n + 1)))
count_up-integer s k n e = ground (arith, key_eq_refl k)

pub add_members-smembers :
    (s : Memory) (k : Key) (xs : List String) (x : String)
    → includes x ((add_members s k xs).sets k) ≡ (includes x xs || includes x (s.sets k))
add_members-smembers s k xs x =
    ground (arith, key_eq_refl k, any_of-append (str_eq x) xs (s.sets k))

pub add_members-smembers_ne :
    (s : Memory) (k j : Key) (xs : List String) → k ≢ j → (add_members s k xs).sets j ≡ s.sets j
add_members-smembers_ne s k j xs h = ground (arith, key_eq_ne k j h)

abbrev pub memory_redis : Redis
memory_redis = record {
  State = Memory;
  get = λ s k. s.values k;
  set = λ s k v ttl. put s k (some v);
  set_nx = λ s k v ttl. put_new s k v;
  incr = count_up;
  expire = λ s k ttl. s;
  del = λ s k. put s k none;
  smembers = λ s k. s.sets k;
  sadd = add_members;
  get-set = λ s k v ttl. put-get s k (some v);
  get-set_ne = λ s k j v ttl h. put-get_ne s k j (some v) h;
  set_nx-free = λ s k v ttl e. rw (e, put_new) refl;
  set_nx-held = λ s k v w ttl e. rw (e, put_new) refl;
  incr-absent = count_up-absent;
  incr-integer = count_up-integer;
  get-incr_ne = λ s k j h. put-get_ne s k j (some (integer (number_of (s.values k) + 1))) h;
  get-expire = λ s k j ttl. refl;
  get-del = λ s k. put-get s k none;
  get-del_ne = λ s k j h. put-get_ne s k j none h;
  get-sadd_ne = λ s k j xs h. refl;
  smembers-sadd = add_members-smembers;
  smembers-sadd_ne = add_members-smembers_ne;
  smembers-set_ne = λ s k j v ttl h. refl;
  smembers-expire = λ s k j ttl. refl;
}

abbrev pub empty_memory : Memory
empty_memory = record { values = λ k. none; sets = λ k. [] }
