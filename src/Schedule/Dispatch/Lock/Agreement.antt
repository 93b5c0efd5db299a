-- ===== src/Schedule/Dispatch/Lock/Agreement.antt =====
-- scheduler.ts and dispatch-lock.ts: the jobs that interleaved dispatchers end with.
use new_specter.Redis.{Redis, text}
use new_specter.Schedule.Dispatch.{
  ScrapeJob, Point, start, done, Dispatched, World, Dispatcher, advance, advance_one, step_at,
  interleave, lock_key,
}
use new_specter.Schedule.Dispatch.Progress.{interleave-length}
use new_specter.Schedule.Dispatch.Lock.{
  holder_of, Locks, Keeps, IsConsistent, Keeps-IsConsistent, plain,
}
use new_specter.Schedule.Dispatch.Lock.Steps.{advance-IsSafe}
use new_specter.Common.{
  ℕ, zero, suc, ◌≤◌, ◌<◌, String, ◌≡◌, refl, sym, ap, ◌∙◌, ◌≢◌, Bool, true, false, some, List, [],
  ◌∷◌, arith, length, get_or, all_of,
}

module _ (𝓡 : Redis) (job_id : ℕ → String) where
  open 𝓡 use {State, get}

  abbrev pub AllConsistent : State → List (Dispatcher 𝓡 job_id) → Type 0
  AllConsistent s [] = 0 ≤ 0
  AllConsistent s (d ∷ ds) = IsConsistent 𝓡 job_id s d.job d.point × AllConsistent s ds

  abbrev pub is_fresh : Dispatcher 𝓡 job_id → Bool
  is_fresh d = elim d.point [ start ↦ true | _ ↦ false ]

  fresh-IsConsistent :
      (s : State) (job : ScrapeJob) (p : Point)
      → elim p [ start ↦ true | _ ↦ false ] ≡ true
      → IsConsistent 𝓡 job_id s job p
  fresh-IsConsistent s job start e = plain 𝓡 job_id s job start refl refl refl refl
  fresh-IsConsistent s job _ e = cc

  pub fresh-AllConsistent :
      (s : State) (ds : List (Dispatcher 𝓡 job_id)) → all_of is_fresh ds ≡ true → AllConsistent s ds
  fresh-AllConsistent s [] e = omega arith
  fresh-AllConsistent s (d ∷ ds) e =
      (fresh-IsConsistent s d.job d.point (ground arith), fresh-AllConsistent s ds (ground arith))

  Keeps-AllConsistent :
      (s s' : State) (ds : List (Dispatcher 𝓡 job_id))
      → Keeps 𝓡 job_id s s'
      → AllConsistent s ds
      → AllConsistent s' ds
  Keeps-AllConsistent s s' [] k a = a
  Keeps-AllConsistent s s' (d ∷ ds) k (c, a) =
      (Keeps-IsConsistent 𝓡 job_id s s' d.job d.point k c, Keeps-AllConsistent s s' ds k a)

  AllConsistent-get_or :
      (s : State) (ds : List (Dispatcher 𝓡 job_id)) (i : ℕ) (d : Dispatcher 𝓡 job_id)
      → i < length ds
      → AllConsistent s ds
      → let e = get_or ds i d in IsConsistent 𝓡 job_id s e.job e.point
  AllConsistent-get_or s [] i d h a = elim h [ ]
  AllConsistent-get_or s (e ∷ ds) zero d h (c, a) = c
  AllConsistent-get_or s (e ∷ ds) (suc i) d h (c, a) = AllConsistent-get_or s ds i d (omega arith) a

  module _ (named : (n : ℕ) → job_id n ≢ "") where
    step_at-safe :
        (w : World 𝓡 job_id) (ds : List (Dispatcher 𝓡 job_id)) (i : ℕ)
        → Locks 𝓡 job_id w.redis
        → AllConsistent w.redis ds
        → let (ds', w') = step_at 𝓡 job_id w ds i in
          Locks 𝓡 job_id w'.redis × Keeps 𝓡 job_id w.redis w'.redis × AllConsistent w'.redis ds'
    unfolding step_at advance_one
    step_at-safe w [] i l a = (l, λ d p v e. e, a)
    step_at-safe w (d ∷ ds) zero l (c, a) =
        let r = advance-IsSafe 𝓡 job_id w d.job d.eclipse_ms d.point named l c in
        let w' = (advance 𝓡 job_id w d.job d.eclipse_ms d.point).1 in
        (r.locks, r.keeps, (r.consistent, Keeps-AllConsistent w.redis w'.redis ds r.keeps a))
    step_at-safe w (d ∷ ds) (suc i) l (c, a) =
        let r = step_at-safe w ds i l a in
        let w' = (step_at 𝓡 job_id w ds i).1 in
        (r.0, r.1, (Keeps-IsConsistent 𝓡 job_id w.redis w'.redis d.job d.point r.1 c, r.2))

    pub interleave-safe :
        (w : World 𝓡 job_id) (ds : List (Dispatcher 𝓡 job_id)) (is : List ℕ)
        → Locks 𝓡 job_id w.redis
        → AllConsistent w.redis ds
        → let (ds', w') = interleave 𝓡 job_id w ds is in
          Locks 𝓡 job_id w'.redis × AllConsistent w'.redis ds'
    unfolding interleave
    interleave-safe w ds [] l a = (l, a)
    interleave-safe w ds (i ∷ is) l a =
        let r = step_at-safe w ds i l a in
        let (ds₁, w₁) = step_at 𝓡 job_id w ds i in interleave-safe w₁ ds₁ is r.0 r.2

    holds_lock :
        (w : World 𝓡 job_id) (ds : List (Dispatcher 𝓡 job_id)) (i : ℕ) (d : Dispatcher 𝓡 job_id)
        (r : Dispatched)
        → AllConsistent w.redis ds
        → i < length ds
        → (get_or ds i d).point ≡ done (some r)
        → get w.redis (lock_key 𝓡 job_id (get_or ds i d).job) ≡ some (text r.0)
    holds_lock w ds i d r a h e =
        ((AllConsistent-get_or w.redis ds i d h a).holds r.0 (ap holder_of e)).0

    -- Of any dispatchers that start on locks that are free or hold a job's id, one that has ended
    -- with a result, however their commands interleaved, names the job that the lock of its URL
    -- holds. No lock expires meanwhile.
    pub dispatched_holds_lock :
        (w : World 𝓡 job_id) (ds : List (Dispatcher 𝓡 job_id)) (is : List ℕ) (i : ℕ)
        (d : Dispatcher 𝓡 job_id) (r : Dispatched)
        → Locks 𝓡 job_id w.redis
        → all_of is_fresh ds ≡ true
        → i < length ds
        → (get_or (interleave 𝓡 job_id w ds is).0 i d).point ≡ done (some r)
        → let (ds', w') = interleave 𝓡 job_id w ds is in
          get w'.redis (lock_key 𝓡 job_id (get_or ds' i d).job) ≡ some (text r.0)
    dispatched_holds_lock w ds is i d r l f h e =
        let (ds', w') = interleave 𝓡 job_id w ds is in
        holds_lock w' ds' i d r (interleave-safe w ds is l (fresh-AllConsistent w.redis ds f)).1
          (omega (arith, interleave-length 𝓡 job_id w ds is)) e

    text_same : (s t : String) → some (text s) ≡ some (text t) → s ≡ t
    text_same s t e = ground arith

    -- Two dispatchers of one URL that both ended with a result name the same job, under the same
    -- conditions.
    pub dispatchers_agree :
        (w : World 𝓡 job_id) (ds : List (Dispatcher 𝓡 job_id)) (is : List ℕ) (i j : ℕ)
        (d : Dispatcher 𝓡 job_id) (r t : Dispatched)
        → Locks 𝓡 job_id w.redis
        → all_of is_fresh ds ≡ true
        → i < length ds
        → j < length ds
        → let ds' = (interleave 𝓡 job_id w ds is).0 in
          (get_or ds' i d).point ≡ done (some r)
          → (get_or ds' j d).point ≡ done (some t)
          → lock_key 𝓡 job_id (get_or ds' i d).job ≡ lock_key 𝓡 job_id (get_or ds' j d).job
          → r.0 ≡ t.0
    dispatchers_agree w ds is i j d r t l f hi hj ei ej same =
        let s' = (interleave 𝓡 job_id w ds is).1.redis in
        text_same r.0 t.0 (
          sym (dispatched_holds_lock w ds is i d r l f hi ei)
          ∙ ap (get s') same
          ∙ dispatched_holds_lock w ds is j d t l f hj ej)
