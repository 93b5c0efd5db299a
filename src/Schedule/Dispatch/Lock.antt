-- ===== src/Schedule/Dispatch/Lock.antt =====
-- dispatch-lock.ts: what Redis's locks hold, and what a dispatcher that stands at a point relies on.
pub mod Steps
pub mod Agreement
use new_specter.Redis.{Redis, Key, scrape_lock, domain_class, batch_set, Value, text}
use new_specter.Schedule.Dispatch.{
  Queue, ScrapeJob, Point, start, classified, unlocked, measured, enqueued, refused, losing,
  batching, batched_onto, orphaned, recreated, done, failed, Dispatched, held_text, World, advance,
  Dispatcher, advance_one, step_at, interleave, add_job, route, lock_key, lock_holder,
  domain_class_of, add_to_batch, keep_batch, remove_job,
}
use new_specter.Schedule.Dispatch.Progress.{step_at-length}
use new_specter.Common.{
  ℕ, zero, suc, ◌+◌, ◌-◌, ◌*◌, ◌/◌, ◌%◌, ◌^◌, ◌≤◌, ◌<◌, min, max, String, ◌≡◌, refl, sym, ap, subst,
  ◌∙◌, fun_ext, ◌≢◌, ◌↔◌, ◌⊎◌, inl, inr, Bool, true, false, not, ◌&&◌, ◌||◌, Option, none, some,
  List, [], ◌∷◌, ◌++◌, map, arith, ℕ_discrete, ltb, leb, ◌==◌, if◌then◌else◌, ltb→lt, lt→ltb,
  leb→le, le→leb, ==_iff, Bool-cases, Option-cases, is_some, or_else, length, get_or, any_of,
  all_of, filter_by, length-append, any_of-append, get_or-any_of, any_of-false, all_of-get_or,
  all_of-filter_by, length-filter_by-le, str_eq, str_eq_iff, str_eq_refl, str_eq_ne, includes,
  includes-any_of, codes, contains, matches_ci,
}

-- The job that a dispatcher takes for the holder of its lock.
abbrev pub holder_of : Point → Option String
holder_of (losing q interval_ms id holder) = holder
holder_of (batching id) = some id
holder_of (batched_onto id) = some id
holder_of (done (some r)) = some r.0
holder_of _ = none

-- The points that only an expired lock leads to.
abbrev pub has_lost_lock : Point → Bool
has_lost_lock (losing q interval_ms id none) = true
has_lost_lock (orphaned q interval_ms) = true
has_lost_lock (recreated interval_ms id) = true
has_lost_lock _ = false

abbrev pub candidate : Point → Option String
candidate (enqueued q interval_ms id) = some id
candidate _ = none

abbrev pub is_refused : Point → Bool
is_refused (refused q interval_ms id) = true
is_refused _ = false

pub held_text-some : (t : String) → t ≢ "" → held_text (some (text t)) ≡ some t
held_text-some t h = ground (arith, str_eq_ne t "")

module _ (𝓡 : Redis) (job_id : ℕ → String) where
  open 𝓡 use {
    State, get, set, set_nx, expire, sadd, get-set, get-set_ne, set_nx-free, set_nx-held,
    get-expire, get-sadd_ne,
  }

  -- A lock is free, or it holds a job's id.
  abbrev pub Locks : State → Type 0
  Locks s =
      (domain path : String)
      → (get s (scrape_lock domain path) ≡ none)
        ⊎ ((id : String) × (get s (scrape_lock domain path) ≡ some (text id)) × (id ≢ ""))

  -- What a lock holds stays.
  abbrev pub Keeps : State → State → Type 0
  Keeps s s' =
      (domain path : String) (v : Value)
      → get s (scrape_lock domain path) ≡ some v
      → get s' (scrape_lock domain path) ≡ some v

  pub record IsConsistent (s : State) (job : ScrapeJob) (p : Point) : Type 0 where
    pub holds :
        (id : String)
        → holder_of p ≡ some id
        → (get s (lock_key 𝓡 job_id job) ≡ some (text id)) × (id ≢ "")
    pub own : (id : String) → candidate p ≡ some id → id ≢ ""
    pub taken :
        is_refused p ≡ true
        → (id : String) × (get s (lock_key 𝓡 job_id job) ≡ some (text id)) × (id ≢ "")
    pub never_lost : has_lost_lock p ≡ false

  pub Keeps-IsConsistent :
      (s s' : State) (job : ScrapeJob) (p : Point)
      → Keeps s s'
      → IsConsistent s job p
      → IsConsistent s' job p
  Keeps-IsConsistent s s' job p k c = record {
    holds = λ id e. (k job.domain job.url_path (text id) (c.holds id e).0, (c.holds id e).1);
    own = c.own;
    taken = λ e. let t = c.taken e in (t.0, k job.domain job.url_path (text t.0) t.1, t.2);
    never_lost = c.never_lost;
  }

  -- A step whose point tells nothing of the lock.
  pub plain :
      (s : State) (job : ScrapeJob) (p : Point)
      → holder_of p ≡ none
      → candidate p ≡ none
      → is_refused p ≡ false
      → has_lost_lock p ≡ false
      → IsConsistent s job p
  plain s job p e f g h = record {
    holds = λ id e'. cc;
    own = λ id e'. cc;
    taken = λ e'. cc;
    never_lost = h;
  }

  pub holding :
      (s : State) (job : ScrapeJob) (p : Point) (id : String)
      → get s (lock_key 𝓡 job_id job) ≡ some (text id)
      → id ≢ ""
      → holder_of p ≡ some id
      → candidate p ≡ none
      → is_refused p ≡ false
      → has_lost_lock p ≡ false
      → IsConsistent s job p
  holding s job p id l n e f g h = record {
    holds = λ id' e'. ground (arith);
    own = λ id e'. cc;
    taken = λ e'. cc;
    never_lost = h;
  }

  pub set-Keeps :
      (s : State) (domain path : String) (v : Value) (ttl : ℕ)
      → get s (scrape_lock domain path) ≡ none
      → Keeps s (set s (scrape_lock domain path) v ttl)
  set-Keeps s domain path v ttl free d p x e =
      get-set_ne s (scrape_lock domain path) (scrape_lock d p) v ttl
        (λ same. let e' = ap (get s) same in cc)
      ∙ e

  lock_key-cases :
      (a b d p : String) → (scrape_lock a b ≡ scrape_lock d p) ⊎ (scrape_lock a b ≢ scrape_lock d p)
  lock_key-cases a b d p = elim (Bool-cases (str_eq a d && str_eq b p)) [
    | inl e ↦ inl (ground (arith, str_eq_iff a d, str_eq_iff b p))
    | inr e ↦ inr (λ same. ground (arith, str_eq_iff a d, str_eq_iff b p))
  ]

  pub set-Locks :
      (s : State) (domain path id : String) (ttl : ℕ)
      → id ≢ ""
      → Locks s
      → Locks (set s (scrape_lock domain path) (text id) ttl)
  set-Locks s domain path id ttl n l d p = elim (lock_key-cases domain path d p) [
    | inl same ↦ inr (
      id,
      subst (λ k. get (set s (scrape_lock domain path) (text id) ttl) k ≡ some (text id)) same
          (get-set s (scrape_lock domain path) (text id) ttl),
      n,
    )
    | inr other ↦
        let kept = get-set_ne s (scrape_lock domain path) (scrape_lock d p) (text id) ttl other in
        elim (l d p) [ inl e ↦ inl (kept ∙ e) | inr t ↦ inr (t.0, kept ∙ t.1, t.2) ]
  ]

  pub same-Locks :
      (s s' : State)
      → ((domain path : String)
          → get s' (scrape_lock domain path) ≡ get s (scrape_lock domain path))
      → Locks s
      → Locks s' × Keeps s s'
  same-Locks s s' h l = (
    λ d p. elim (l d p) [ inl e ↦ inl (h d p ∙ e) | inr t ↦ inr (t.0, h d p ∙ t.1, t.2) ],
    λ d p v e. h d p ∙ e,
  )
