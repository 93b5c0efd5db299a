-- ===== src/Schedule/Dispatch/Owners.antt =====
-- scheduler.ts, lines 79-102: which dispatcher a job in the queues belongs to.
use new_specter.Redis.{Redis}
use new_specter.Schedule.Dispatch.{
  Queue, queue_eq, probe_queue, http_queue, playwright_queue, ScrapeJob, QueuedJob, Point, start,
  classified, unlocked, measured, enqueued, refused, losing, batching, batched_onto, orphaned,
  recreated, done, failed, World, advance, Dispatcher, advance_one, step_at, interleave, add_job,
  remove_job, route, domain_class_of,
}
use new_specter.Schedule.Dispatch.Progress.{has_ended}
use new_specter.Common.{
  ℕ, zero, suc, ◌+◌, String, ◌≡◌, refl, Bool, true, false, ◌&&◌, ◌||◌, Option, some, List, [], ◌∷◌,
  arith, any_of, all_of, filter_by, str_eq, str_eq_refl,
}

abbrev pub same_url : ScrapeJob → ScrapeJob → Bool
same_url a b = str_eq a.domain b.domain && str_eq a.url_path b.url_path

same_url_refl : (a : ScrapeJob) → same_url a a ≡ true
same_url_refl a = ground (arith, str_eq_refl a.domain, str_eq_refl a.url_path)

-- The job is one that a dispatcher at this point has made and not given up.
abbrev pub has_made : Point → QueuedJob → Bool
has_made (enqueued q interval_ms id) j = queue_eq j.queue q && str_eq j.id id
has_made (refused q interval_ms id) j = queue_eq j.queue q && str_eq j.id id
has_made (losing q interval_ms id holder) j = queue_eq j.queue q && str_eq j.id id
has_made (recreated interval_ms id) j = str_eq j.id id
has_made (done (some (id, false))) j = str_eq j.id id
has_made _ j = false

abbrev pub owns : ScrapeJob → Point → QueuedJob → Bool
owns job p j = has_made p j && same_url j.job_data job

queue_eq_refl : (q : Queue) → queue_eq q q ≡ true
queue_eq_refl probe_queue = refl
queue_eq_refl http_queue = refl
queue_eq_refl playwright_queue = refl

pub all_of-imp {ℓ} :
    {A : Type ℓ} (p q : A → Bool) (xs : List A)
    → ((x : A) → p x ≡ true → q x ≡ true)
    → all_of p xs ≡ true
    → all_of q xs ≡ true
all_of-imp p q [] h e = refl
all_of-imp p q (x ∷ xs) h e = ground (arith, h x, all_of-imp p q xs h)

all_of-kept {ℓ} :
    {A : Type ℓ} (p q keep : A → Bool) (xs : List A)
    → ((x : A) → p x ≡ true → keep x ≡ true → q x ≡ true)
    → all_of p xs ≡ true
    → all_of q (filter_by keep xs) ≡ true
all_of-kept p q keep [] h e = refl
all_of-kept p q keep (x ∷ xs) h e = ground (arith, h x, all_of-kept p q keep xs h)

module _ (𝓡 : Redis) (job_id : ℕ → String) where
  route-has_made : (c : Option String) (j : QueuedJob) → has_made (route 𝓡 job_id c) j ≡ false
  unfolding route
  route-has_made c j = ground arith

  -- The other dispatchers' jobs are `P`.
  advance-owned :
      (P : QueuedJob → Bool) (w : World 𝓡 job_id) (job : ScrapeJob) (eclipse_ms : ℕ) (p : Point)
      → all_of (λ j. P j || owns job p j) w.jobs ≡ true
      → let (p', w') = advance 𝓡 job_id w job eclipse_ms p in
        all_of (λ j. P j || owns job p' j) w'.jobs ≡ true
  unfolding advance add_job remove_job
  advance-owned P w job eclipse_ms start h =
      all_of-imp _ _ w.jobs
        (λ j. ground (arith, route-has_made (domain_class_of 𝓡 job_id w.redis job.domain) j)) h
  advance-owned P w job eclipse_ms (classified q) h = all_of-imp _ _ w.jobs (λ j. ground arith) h
  advance-owned P w job eclipse_ms (unlocked q) h = all_of-imp _ _ w.jobs (λ j. ground arith) h
  advance-owned P w job eclipse_ms (measured q interval_ms) h = ground (
    arith,
    queue_eq_refl q,
    str_eq_refl (job_id (w.made q + 1)),
    same_url_refl job,
    all_of-imp (λ j. P j || false)
        (λ j. P j || owns job (enqueued q interval_ms (job_id (w.made q + 1))) j) w.jobs
        (λ j. ground arith) h,
  )
  advance-owned P w job eclipse_ms (enqueued q interval_ms id) h =
      all_of-imp _ _ w.jobs (λ j. ground arith) h
  advance-owned P w job eclipse_ms (refused q interval_ms id) h = h
  advance-owned P w job eclipse_ms (losing q interval_ms id holder) h =
      all_of-kept _ _ _ w.jobs (λ j. ground arith) h
  advance-owned P w job eclipse_ms (batching id) h = h
  advance-owned P w job eclipse_ms (batched_onto id) h = h
  advance-owned P w job eclipse_ms (orphaned q interval_ms) h = ground (
    arith,
    str_eq_refl (job_id (w.made q + 1)),
    same_url_refl job,
    all_of-imp (λ j. P j || false)
        (λ j. P j || owns job (recreated interval_ms (job_id (w.made q + 1))) j) w.jobs
        (λ j. ground arith) h,
  )
  advance-owned P w job eclipse_ms (recreated interval_ms id) h = h
  advance-owned P w job eclipse_ms (done r) h = h
  advance-owned P w job eclipse_ms failed h = h

  abbrev pub is_owned : List (Dispatcher 𝓡 job_id) → QueuedJob → Bool
  is_owned ds j = any_of (λ (d : Dispatcher 𝓡 job_id). owns d.job d.point j) ds

  step_at-owned :
      (P : QueuedJob → Bool) (w : World 𝓡 job_id) (ds : List (Dispatcher 𝓡 job_id)) (i : ℕ)
      → all_of (λ j. P j || is_owned ds j) w.jobs ≡ true
      → let (ds', w') = step_at 𝓡 job_id w ds i in
        all_of (λ j. P j || is_owned ds' j) w'.jobs ≡ true
  unfolding step_at advance_one
  step_at-owned P w [] i h = h
  step_at-owned P w (d ∷ ds) zero h =
      let (p', w') = advance 𝓡 job_id w d.job d.eclipse_ms d.point in
      all_of-imp (λ j. (P j || is_owned ds j) || owns d.job p' j) _ w'.jobs (λ j. ground arith)
        (advance-owned (λ j. P j || is_owned ds j) w d.job d.eclipse_ms d.point
          (all_of-imp _ _ w.jobs (λ j. ground arith) h))
  step_at-owned P w (d ∷ ds) (suc i) h =
      let (ds', w') = step_at 𝓡 job_id w ds i in
      all_of-imp (λ j. (P j || owns d.job d.point j) || is_owned ds' j) _ w'.jobs
        (λ j. ground arith)
        (step_at-owned (λ j. P j || owns d.job d.point j) w ds i
          (all_of-imp _ _ w.jobs (λ j. ground arith) h))

  interleave-owned :
      (w : World 𝓡 job_id) (ds : List (Dispatcher 𝓡 job_id)) (is : List ℕ)
      → all_of (is_owned ds) w.jobs ≡ true
      → let (ds', w') = interleave 𝓡 job_id w ds is in all_of (is_owned ds') w'.jobs ≡ true
  unfolding interleave
  interleave-owned w ds [] h = h
  interleave-owned w ds (i ∷ is) h =
      let (ds₁, w₁) = step_at 𝓡 job_id w ds i in
      interleave-owned w₁ ds₁ is (step_at-owned (λ j. false) w ds i h)

  -- A dispatcher of the job's URL returned the job as one that it made.
  abbrev pub returned : QueuedJob → Dispatcher 𝓡 job_id → Bool
  returned j d =
      elim d.point [ done (some (id, false)) ↦ str_eq j.id id | _ ↦ false ]
      && same_url j.job_data d.job

  ended-returned :
      (d : Dispatcher 𝓡 job_id) (j : QueuedJob)
      → has_ended d.point ≡ true
      → returned j d ≡ owns d.job d.point j
  ended-returned d j e = ground arith

  returned-owns :
      (ds : List (Dispatcher 𝓡 job_id)) (j : QueuedJob)
      → all_of (λ (d : Dispatcher 𝓡 job_id). has_ended d.point) ds ≡ true
      → is_owned ds j ≡ true
      → any_of (returned j) ds ≡ true
  returned-owns [] j e h = h
  returned-owns (d ∷ ds) j e h = ground (arith, ended-returned d j, returned-owns ds j)

  -- If dispatchers that begin with empty queues have all ended, in any interleaving, each job left
  -- in a queue is one that a dispatcher of its URL returned as not batched: the duplicates are gone.
  pub live_job_is_returned :
      (w : World 𝓡 job_id) (ds : List (Dispatcher 𝓡 job_id)) (is : List ℕ)
      → w.jobs ≡ []
      → let (ds', w') = interleave 𝓡 job_id w ds is in
        all_of (λ (d : Dispatcher 𝓡 job_id). has_ended d.point) ds' ≡ true
        → all_of (λ j. any_of (returned j) ds') w'.jobs ≡ true
  live_job_is_returned w ds is e h =
      let (ds', w') = interleave 𝓡 job_id w ds is in
      all_of-imp (is_owned ds') _ w'.jobs (λ j. returned-owns ds' j h)
        (interleave-owned w ds is (rw e refl))
