-- ===== src/Schedule/Dispatch/Claim.antt =====
-- dispatch-lock.ts, lines 28-57: what a claim of the lock answers.
use new_specter.Redis.{Redis, text}
use new_specter.Schedule.Dispatch.{ScrapeJob, held_text, lock_key, lock_holder, claim_domain_lock}
use new_specter.Schedule.Dispatch.Lock.{held_text-some}
use new_specter.Common.{
  ℕ, String, ◌≡◌, refl, sym, ap, ◌∙◌, ◌≢◌, inl, inr, not, Option-cases, is_some,
}

module _ (𝓡 : Redis) (job_id : ℕ → String) where
  open 𝓡 use {State, get, set, set_nx, get-set, set_nx-free, set_nx-held}

  -- A claim with a job's id, which is not empty, wins exactly if the lock is free, and names the job
  -- that holds the lock after it.
  pub claim_names_holder :
      (s : State) (job : ScrapeJob) (candidate : String) (ttl_ms : ℕ)
      → candidate ≢ ""
      → let (c, s') = claim_domain_lock 𝓡 job_id s job candidate ttl_ms in
        (c.won ≡ not (is_some (get s (lock_key 𝓡 job_id job))))
        × (c.holder ≡ lock_holder 𝓡 job_id s' job)
  unfolding claim_domain_lock lock_holder
  claim_names_holder s job candidate ttl_ms n =
      let k = lock_key 𝓡 job_id job in
      elim (Option-cases (get s k)) [
        | inl e ↦
            rw (set_nx-free s k (text candidate) ttl_ms e, claim_domain_lock)
              (
                ap (λ o. not (is_some o)) (sym e),
                sym (
                    ap held_text (get-set s k (text candidate) ttl_ms)
                    ∙ held_text-some candidate n),
              )
        | inr (v, e) ↦
            rw (set_nx-held s k (text candidate) v ttl_ms e, claim_domain_lock)
              (ap (λ o. not (is_some o)) (sym e), refl)
      ]
