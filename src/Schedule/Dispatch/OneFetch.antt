-- ===== src/Schedule/Dispatch/OneFetch.antt =====
-- scheduler.ts, lines 81-96: the jobs in the queues and the locks of their URLs.
use new_specter.Redis.{Redis}
use new_specter.Schedule.Dispatch.{QueuedJob, lock_holder}
use new_specter.Common.{ℕ, String, Bool, false, none, some, str_eq}

module _ (𝓡 : Redis) (job_id : ℕ → String) where
  open 𝓡 use {State, get}

  abbrev pub is_locked : State → QueuedJob → Bool
  is_locked s j = elim (lock_holder 𝓡 job_id s j.job_data) [
    | some holder ↦ str_eq j.id holder
    | none ↦ false
  ]
