-- ===== src/Schedule/Dispatch/Numbers.antt =====
-- batch-set.ts, line 27, and scheduler.ts, line 79: the numbers of jobs and the keys of their sets.
use new_specter.Redis.{Redis, batch_set}
use new_specter.Schedule.Dispatch.{
  Queue, queue_eq, ScrapeJob, World, add_job, add_to_batch, union_batched_tracking_ids,
}
use new_specter.Schedule.Dispatch.Batches.{add_to_batch-includes, union-includes}
use new_specter.Common.{
  ℕ, ◌+◌, String, ◌≡◌, ap, subst, ◌∙◌, true, false, ◌||◌, List, arith, Bool-cases, includes,
}

module _ (𝓡 : Redis) (job_id : ℕ → String) where
  same_number :
      (w : World 𝓡 job_id) (p q : Queue) (a b : ScrapeJob)
      → queue_eq q p ≡ false
      → w.made p ≡ w.made q
      → let (id, w₁) = add_job 𝓡 job_id w p a in id ≡ (add_job 𝓡 job_id w₁ q b).0
  unfolding add_job
  same_number w p q a b other same = rw other (ap (λ n. job_id (n + 1)) same)

  -- If two queues have made as many jobs, then of a job for one URL and a job for another that are
  -- added to them, the ids that are batched onto the first are in the union that the worker of the
  -- second takes.
  pub ids_leak_between_queues :
      (w : World 𝓡 job_id) (p q : Queue) (a b : ScrapeJob) (ts base_ids : List String) (t : String)
      → queue_eq q p ≡ false
      → w.made p ≡ w.made q
      → includes t ts ≡ true
      → let (id, w₁) = add_job 𝓡 job_id w p a in
        let (id', w₂) = add_job 𝓡 job_id w₁ q b in
        includes t
          (union_batched_tracking_ids 𝓡 job_id (add_to_batch 𝓡 job_id w₂.redis id ts) id' base_ids)
        ≡ true
  ids_leak_between_queues w p q a b ts base_ids t other same m =
      let (id, w₁) = add_job 𝓡 job_id w p a in
      let (id', w₂) = add_job 𝓡 job_id w₁ q b in
      let s = add_to_batch 𝓡 job_id w₂.redis id ts in
      let found = add_to_batch-includes 𝓡 job_id w₂.redis id ts t m in
      let there =
        subst (λ i. includes t (𝓡.smembers s (batch_set i)) ≡ true)
          (same_number w p q a b other same) found in
      union-includes 𝓡 job_id s id' base_ids t
      ∙ ap (λ x. includes t base_ids || x) there
      ∙ ground (arith, Bool-cases (includes t base_ids))
