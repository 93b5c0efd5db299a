-- ===== src/Schedule/Dispatch/Batches.antt =====
-- batch-set.ts: the ids that dispatchers batch onto a job, and the union that its worker takes.
use new_specter.Redis.{Redis, batch_set}
use new_specter.Schedule.Dispatch.{
  ScrapeJob, Point, batched_onto, done, Dispatcher, add_to_batch, distinct, union_ids,
  union_batched_tracking_ids,
}
use new_specter.Common.{
  ℕ, ◌≤◌, String, ◌≡◌, refl, ◌∙◌, true, false, not, ◌||◌, Option, none, some, List, [], ◌∷◌, ◌++◌,
  arith, filter_by, any_of-append, str_eq, str_eq_iff, includes,
}

any_of-filter_ne :
    (x y : String) (xs : List String)
    → str_eq x y ≡ false
    → includes y (filter_by (λ z. not (str_eq x z)) xs) ≡ includes y xs
any_of-filter_ne x y [] h = refl
any_of-filter_ne x y (z ∷ xs) h =
    ground (arith, any_of-filter_ne x y xs h, str_eq_iff y z, str_eq_iff x z)

filter_ne-includes :
    (x : String) (xs : List String) → includes x (filter_by (λ z. not (str_eq x z)) xs) ≡ false
filter_ne-includes x [] = refl
filter_ne-includes x (z ∷ xs) = ground (arith, filter_ne-includes x xs)

module _ (𝓡 : Redis) (job_id : ℕ → String) where
  open 𝓡 use {
    State, get, set, set_nx, expire, smembers, sadd, set_nx-free, set_nx-held, smembers-sadd,
    smembers-sadd_ne, smembers-set_ne, smembers-expire,
  }

  distinct-includes :
      (y : String) (xs : List String) → includes y (distinct 𝓡 job_id xs) ≡ includes y xs
  unfolding distinct
  distinct-includes y [] = refl
  distinct-includes y (x ∷ xs) = ground (
    arith,
    any_of-filter_ne x y (distinct 𝓡 job_id xs),
    str_eq_iff x y,
    str_eq_iff y x,
    distinct-includes y xs,
  )

  union_ids-includes :
      (base_ids extra : List String) (x : String)
      → includes x (union_ids 𝓡 job_id base_ids extra) ≡ (includes x base_ids || includes x extra)
  unfolding union_ids
  union_ids-includes base_ids [] x = ground arith
  union_ids-includes base_ids (y ∷ ys) x =
      distinct-includes x (base_ids ++ (y ∷ ys)) ∙ any_of-append (str_eq x) base_ids (y ∷ ys)

  -- The union has an id exactly when the job or its set has it.
  pub union-includes :
      (s : State) (id : String) (base_ids : List String) (x : String)
      → includes x (union_batched_tracking_ids 𝓡 job_id s id base_ids)
        ≡ (includes x base_ids || includes x (smembers s (batch_set id)))
  unfolding union_batched_tracking_ids
  union-includes s id base_ids x = union_ids-includes base_ids (smembers s (batch_set id)) x

  -- No set of batched ids loses one.
  abbrev pub Grows : State → State → Type 0
  Grows s s' =
      (id t : String)
      → includes t (smembers s (batch_set id)) ≡ true
      → includes t (smembers s' (batch_set id)) ≡ true

  pub add_to_batch-includes :
      (s : State) (id : String) (ts : List String) (t : String)
      → includes t ts ≡ true
      → includes t (smembers (add_to_batch 𝓡 job_id s id ts) (batch_set id)) ≡ true
  unfolding add_to_batch
  add_to_batch-includes s id [] t h = cc
  add_to_batch-includes s id (x ∷ xs) t h =
      let e = smembers-sadd s (batch_set id) (x ∷ xs) t in ground arith

  abbrev pub batched_id : Point → Option String
  batched_id (batched_onto id) = some id
  batched_id (done (some (id, true))) = some id
  batched_id _ = none

  -- A dispatcher's ids are in the set of the job that it batched them onto.
  abbrev pub IsBatched : State → ScrapeJob → Point → Type 0
  IsBatched s job p =
      (id t : String)
      → batched_id p ≡ some id
      → includes t job.competitor_tracking_ids ≡ true
      → includes t (smembers s (batch_set id)) ≡ true

  abbrev pub AllBatched : State → List (Dispatcher 𝓡 job_id) → Type 0
  AllBatched s [] = 0 ≤ 0
  AllBatched s (d ∷ ds) = IsBatched s d.job d.point × AllBatched s ds
