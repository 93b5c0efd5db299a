-- ===== src/Schedule/Dispatch/Lock/Steps.antt =====
-- scheduler.ts, lines 44-103: a single step of a dispatcher and the locks.
use new_specter.Redis.{Redis, scrape_lock, batch_set, text}
use new_specter.Schedule.Plans.{compute_adaptive_interval}
use new_specter.Schedule.Streak.{get_unchanged_streak}
use new_specter.Schedule.Dispatch.{
  Queue, ScrapeJob, Point, start, classified, unlocked, measured, enqueued, refused, losing,
  batching, batched_onto, orphaned, recreated, done, failed, held_text, World, advance, add_job,
  route, lock_key, lock_holder, domain_class_of, add_to_batch, keep_batch, remove_job,
  batch_set_ttl_ms,
}
use new_specter.Schedule.Dispatch.Lock.{
  holder_of, has_lost_lock, candidate, is_refused, held_text-some, Locks, Keeps, IsConsistent,
  plain, holding, set-Keeps, set-Locks, same-Locks,
}
use new_specter.Common.{
  ℕ, ◌+◌, String, ◌≡◌, refl, ap, ◌∙◌, ◌≢◌, inl, inr, true, false, Option, none, some, List, [], ◌∷◌,
  arith, if◌then◌else◌, Bool-cases, or_else, str_eq,
}

module _ (𝓡 : Redis) (job_id : ℕ → String) where
  open 𝓡 use {
    State, get, set, set_nx, expire, sadd, get-set, get-set_ne, set_nx-free, set_nx-held,
    get-expire, get-sadd_ne,
  }

  -- What a step to the point `p` leaves.
  pub record IsSafe (s s' : State) (job : ScrapeJob) (p : Point) : Type 0 where
    pub locks : Locks 𝓡 job_id s'
    pub keeps : Keeps 𝓡 job_id s s'
    pub consistent : IsConsistent 𝓡 job_id s' job p

  claim :
      (s : State) (job : ScrapeJob) (q : Queue) (id : String) (ttl : ℕ)
      → id ≢ ""
      → Locks 𝓡 job_id s
      → let (won, s') = set_nx s (lock_key 𝓡 job_id job) (text id) ttl in
        IsSafe s s' job (if won then done (some (id, false)) else refused q ttl id)
  claim s job q id ttl n l =
      let k = lock_key 𝓡 job_id job in
      elim (l job.domain job.url_path) [
        | inl free ↦ rw (set_nx-free s k (text id) ttl free) (record {
          locks = set-Locks 𝓡 job_id s job.domain job.url_path id ttl n l;
          keeps = set-Keeps 𝓡 job_id s job.domain job.url_path (text id) ttl free;
          consistent =
              holding 𝓡 job_id (set s k (text id) ttl) job (done (some (id, false))) id
                (get-set s k (text id) ttl) n refl refl refl refl;
        })
        | inr t ↦ rw (set_nx-held s k (text id) (text t.0) ttl t.1) (record {
          locks = l;
          keeps = λ d p v e. e;
          consistent = record {
            holds = λ id' e'. cc;
            own = λ id' e'. cc;
            taken = λ e. t;
            never_lost = refl;
          };
        })
      ]

  holder-some :
      (s : State) (job : ScrapeJob) (id : String)
      → get s (lock_key 𝓡 job_id job) ≡ some (text id)
      → id ≢ ""
      → lock_holder 𝓡 job_id s job ≡ some id
  unfolding lock_holder
  holder-some s job id e n = ap held_text e ∙ held_text-some id n

  stay :
      (s : State) (job : ScrapeJob) (p : Point)
      → Locks 𝓡 job_id s
      → IsConsistent 𝓡 job_id s job p
      → IsSafe s s job p
  stay s job p l c = record { locks = l; keeps = λ d q v e. e; consistent = c }

  no_lost_lock :
      {s s' : State} (t : State) (job : ScrapeJob) (p : Point) {p' : Point}
      → has_lost_lock p ≡ true
      → IsConsistent 𝓡 job_id t job p
      → IsSafe s s' job p'
  no_lost_lock t job p e c = let f = c.never_lost in cc

  add_to_batch-get :
      (s : State) (id : String) (ts : List String) (d p : String)
      → get (add_to_batch 𝓡 job_id s id ts) (scrape_lock d p) ≡ get s (scrape_lock d p)
  unfolding add_to_batch
  add_to_batch-get s id [] d p = refl
  add_to_batch-get s id (t ∷ ts) d p =
      get-sadd_ne s (batch_set id) (scrape_lock d p) (t ∷ ts) (λ e. cc)

  keep_batch-get :
      (s : State) (id : String) (ts : List String) (d p : String)
      → get (keep_batch 𝓡 job_id s id ts) (scrape_lock d p) ≡ get s (scrape_lock d p)
  unfolding keep_batch
  keep_batch-get s id [] d p = refl
  keep_batch-get s id (t ∷ ts) d p = get-expire s (batch_set id) (scrape_lock d p) batch_set_ttl_ms

  -- A step that leaves every lock alone and stays with the holder.
  onward :
      (s s' : State) (job : ScrapeJob) (p : Point) (id : String)
      → ((domain path : String)
          → get s' (scrape_lock domain path) ≡ get s (scrape_lock domain path))
      → Locks 𝓡 job_id s
      → (get s (lock_key 𝓡 job_id job) ≡ some (text id)) × (id ≢ "")
      → holder_of p ≡ some id
      → candidate p ≡ none
      → is_refused p ≡ false
      → has_lost_lock p ≡ false
      → IsSafe s s' job p
  onward s s' job p id h l (e, n) a b c f =
      let r = same-Locks 𝓡 job_id s s' h l in
      record {
        locks = r.0;
        keeps = r.1;
        consistent =
            holding 𝓡 job_id s' job p id (r.1 job.domain job.url_path (text id) e) n a b c f;
      }

  route-IsConsistent :
      (s : State) (job : ScrapeJob) (c : Option String)
      → IsConsistent 𝓡 job_id s job (route 𝓡 job_id c)
  unfolding route
  route-IsConsistent s job c = elim (Bool-cases (str_eq (or_else c "") "blocked")) [
    | inl e ↦ rw e (plain 𝓡 job_id s job (done none) refl refl refl refl)
    | inr e ↦ rw e (plain 𝓡 job_id s job (classified _) refl refl refl refl)
  ]

  look_up-IsSafe :
      (s : State) (job : ScrapeJob) (q : Queue)
      → Locks 𝓡 job_id s
      → IsSafe s s job
          (elim (lock_holder 𝓡 job_id s job) [ some id ↦ batching id | none ↦ unlocked q ])
  unfolding lock_holder
  look_up-IsSafe s job q l = elim (l job.domain job.url_path) [
    | inl free ↦
        rw free (stay s job (unlocked q) l (plain 𝓡 job_id s job (unlocked q) refl refl refl refl))
    | inr t ↦ rw (holder-some s job t.0 t.1 t.2) (
        stay s job (batching t.0) l
          (holding 𝓡 job_id s job (batching t.0) t.0 t.1 t.2 refl refl refl refl))
  ]

  measure-IsSafe :
      (s : State) (job : ScrapeJob) (q : Queue) (interval : Option ℕ)
      → Locks 𝓡 job_id s
      → IsSafe s s job (elim interval [ some interval_ms ↦ measured q interval_ms | none ↦ failed ])
  measure-IsSafe s job q none l =
      stay s job failed l (plain 𝓡 job_id s job failed refl refl refl refl)
  measure-IsSafe s job q (some ms) l =
      stay s job (measured q ms) l (plain 𝓡 job_id s job (measured q ms) refl refl refl refl)

  pub advance-IsSafe :
      (w : World 𝓡 job_id) (job : ScrapeJob) (eclipse_ms : ℕ) (p : Point)
      → ((n : ℕ) → job_id n ≢ "")
      → Locks 𝓡 job_id w.redis
      → IsConsistent 𝓡 job_id w.redis job p
      → let (p', w') = advance 𝓡 job_id w job eclipse_ms p in IsSafe w.redis w'.redis job p'
  unfolding advance add_job remove_job
  advance-IsSafe w job eclipse_ms start n l c =
      let cls = domain_class_of 𝓡 job_id w.redis job.domain in
      stay w.redis job (route 𝓡 job_id cls) l (route-IsConsistent w.redis job cls)
  advance-IsSafe w job eclipse_ms (classified q) n l c = look_up-IsSafe w.redis job q l
  advance-IsSafe w job eclipse_ms (unlocked q) n l c =
      let streak = get_unchanged_streak 𝓡 w.redis job.domain job.url_path in
      measure-IsSafe w.redis job q (compute_adaptive_interval job.plan streak eclipse_ms) l
  advance-IsSafe w job eclipse_ms (measured q ms) n l c =
      let id = job_id (w.made q + 1) in
      stay w.redis job (enqueued q ms id) l (record {
        holds = λ id' e'. cc;
        own = λ id' e'. ground (arith, n (w.made q + 1));
        taken = λ e'. cc;
        never_lost = refl;
      })
  advance-IsSafe w job eclipse_ms (enqueued q ms id) n l c =
      claim w.redis job q id ms (c.own id refl) l
  advance-IsSafe w job eclipse_ms (refused q ms id) n l c =
      let t = c.taken refl in
      rw (holder-some w.redis job t.0 t.1 t.2) (
        stay w.redis job (losing q ms id (some t.0)) l (
          holding 𝓡 job_id w.redis job (losing q ms id (some t.0)) t.0 t.1 t.2 refl refl refl refl))
  advance-IsSafe w job eclipse_ms (losing q ms id none) n l c =
      no_lost_lock w.redis job (losing q ms id none) refl c
  advance-IsSafe w job eclipse_ms (losing q ms id (some h)) n l c =
      let t = c.holds h refl in
      stay w.redis job (batching h) l
        (holding 𝓡 job_id w.redis job (batching h) h t.0 t.1 refl refl refl refl)
  advance-IsSafe w job eclipse_ms (batching id) n l c =
      let ts = job.competitor_tracking_ids in
      onward w.redis (add_to_batch 𝓡 job_id w.redis id ts) job (batched_onto id) id
        (add_to_batch-get w.redis id ts) l (c.holds id refl) refl refl refl refl
  advance-IsSafe w job eclipse_ms (batched_onto id) n l c =
      let ts = job.competitor_tracking_ids in
      onward w.redis (keep_batch 𝓡 job_id w.redis id ts) job (done (some (id, true))) id
        (keep_batch-get w.redis id ts) l (c.holds id refl) refl refl refl refl
  advance-IsSafe w job eclipse_ms (orphaned q ms) n l c =
      no_lost_lock w.redis job (orphaned q ms) refl c
  advance-IsSafe w job eclipse_ms (recreated ms id) n l c =
      no_lost_lock w.redis job (recreated ms id) refl c
  advance-IsSafe w job eclipse_ms (done r) n l c = stay w.redis job (done r) l c
  advance-IsSafe w job eclipse_ms failed n l c = stay w.redis job failed l c
