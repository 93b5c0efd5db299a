-- ===== src/Schedule/Dispatch.antt =====
-- scheduler.ts, lines 22-103, dispatch-lock.ts and batch-set.ts, as a program that is cut at each
-- `await`: a step sends one command to Redis or to a queue, and other dispatchers run in between.
-- A queue numbers its jobs; the text of a number is a parameter.
pub mod Progress
pub mod Lock
pub mod Claim
pub mod Owners
pub mod OneFetch
pub mod Batches
pub mod Numbers
use new_specter.Redis.{
  Redis, Key, domain_class, scrape_lock, batch_set, Value, text, integer, price_text, fingerprint,
}
use new_specter.Schedule.Plans.{Plan, priority_of, compute_adaptive_interval}
use new_specter.Schedule.Streak.{get_unchanged_streak}
use new_specter.Common.{
  ℕ, zero, suc, ◌+◌, ◌-◌, ◌*◌, ◌/◌, ◌%◌, ◌^◌, ◌≤◌, ◌<◌, min, max, String, ◌≡◌, refl, sym, ap, subst,
  ◌∙◌, fun_ext, ◌≢◌, ◌↔◌, ◌⊎◌, inl, inr, Bool, true, false, not, ◌&&◌, ◌||◌, Option, none, some,
  List, [], ◌∷◌, ◌++◌, map, arith, ℕ_discrete, ltb, leb, ◌==◌, if◌then◌else◌, ltb→lt, lt→ltb,
  leb→le, le→leb, ==_iff, Bool-cases, Option-cases, is_some, or_else, length, get_or, any_of,
  all_of, filter_by, length-append, any_of-append, get_or-any_of, any_of-false, all_of-get_or,
  all_of-filter_by, length-filter_by-le, str_eq, str_eq_iff, str_eq_refl, str_eq_ne, includes,
  includes-any_of, codes, contains, matches_ci,
}

pub data Queue : Type 0 where
  probe_queue http_queue playwright_queue : Queue

abbrev pub queue_eq : Queue → Queue → Bool
queue_eq probe_queue probe_queue = true
queue_eq http_queue http_queue = true
queue_eq playwright_queue playwright_queue = true
queue_eq _ _ = false

unfoldable pub select_queue : Option String → Queue
select_queue none = probe_queue
select_queue (some class_raw) =
    if str_eq class_raw "http_ok"
    then http_queue
    else if str_eq class_raw "js_required"
    then playwright_queue
    else probe_queue

pub record ScrapeJob : Type 0 where
  pub url : String
  pub domain : String
  pub url_path : String
  pub competitor_tracking_ids : List String
  pub plan : Option Plan

-- A job that `queue.add` made and that was not removed.
pub record QueuedJob : Type 0 where
  pub queue : Queue
  pub id : String
  pub job_data : ScrapeJob
  pub priority : ℕ

-- The text that a string key holds, where it is not empty.
abbrev pub held_text : Option Value → Option String
held_text (some (text t)) = if str_eq t "" then none else some t
held_text _ = none

-- What `claimDomainLock` answers: whether the caller won, and the job that holds the lock.
pub record LockClaim : Type 0 where
  pub won : Bool
  pub holder : Option String

-- The result of a dispatch: the job's id and `batched`.
abbrev pub Dispatched : Type 0
Dispatched = String × Bool

-- Where a dispatcher stands between two commands.
pub data Point : Type 0 where
  start : Point
  classified : Queue → Point
  unlocked : Queue → Point
  measured : Queue → ℕ → Point
  enqueued : Queue → ℕ → String → Point
  refused : Queue → ℕ → String → Point
  losing : Queue → ℕ → String → Option String → Point
  batching : String → Point
  batched_onto : String → Point
  orphaned : Queue → ℕ → Point
  recreated : ℕ → String → Point
  done : Option Dispatched → Point
  failed : Point

abbrev pub batch_set_ttl_ms : ℕ
batch_set_ttl_ms = 30 * 60_000

module _ (𝓡 : Redis) (job_id : ℕ → String) where
  open 𝓡 use {State, get, set, set_nx, expire, smembers, sadd}

  -- What the dispatchers share: Redis, the number of jobs each queue has made, and the jobs.
  pub record World : Type 0 where
    pub redis : State
    pub made : Queue → ℕ
    pub jobs : List QueuedJob

  unfoldable pub add_job : World → Queue → ScrapeJob → String × World
  unfolding priority_of
  add_job w q job =
      let n = w.made q + 1 in
      let queued : QueuedJob = record {
        queue = q;
        id = job_id n;
        job_data = job;
        priority = priority_of job.plan;
      } in
      (
        job_id n,
        record w { made = λ p. if queue_eq p q then n else w.made p; jobs = queued ∷ w.jobs },
      )

  -- `newJob.remove()`.
  unfoldable pub remove_job : World → Queue → String → World
  remove_job w q id = record w {
    jobs = filter_by (λ j. not (queue_eq j.queue q && str_eq j.id id)) w.jobs;
  }

  -- The commands of `addToBatch`; without ids there is none.
  unfoldable pub add_to_batch : State → String → List String → State
  add_to_batch s id [] = s
  add_to_batch s id (t ∷ ts) = sadd s (batch_set id) (t ∷ ts)

  unfoldable pub keep_batch : State → String → List String → State
  keep_batch s id [] = s
  keep_batch s id (t ∷ ts) = expire s (batch_set id) batch_set_ttl_ms

  -- The set of texts in the order of their first occurrences.
  unfoldable pub distinct : List String → List String
  distinct [] = []
  distinct (x ∷ xs) = x ∷ filter_by (λ y. not (str_eq x y)) (distinct xs)

  unfoldable pub union_ids : List String → List String → List String
  unfolding distinct
  union_ids base_ids [] = base_ids
  union_ids base_ids (x ∷ xs) = distinct (base_ids ++ (x ∷ xs))

  unfoldable pub union_batched_tracking_ids : State → String → List String → List String
  unfolding union_ids
  union_batched_tracking_ids s id base_ids = union_ids base_ids (smembers s (batch_set id))

  abbrev pub lock_key : ScrapeJob → Key
  lock_key job = scrape_lock job.domain job.url_path

  -- `redis.get(lockKey)`, tested for truth.
  unfoldable pub lock_holder : State → ScrapeJob → Option String
  lock_holder s job = held_text (get s (lock_key job))

  -- `claimDomainLock` where nothing runs between its two commands; `advance` takes them one by one.
  unfoldable pub claim_domain_lock : State → ScrapeJob → String → ℕ → LockClaim × State
  unfolding lock_holder
  claim_domain_lock s job candidate ttl_ms =
      let (won, s₁) = set_nx s (lock_key job) (text candidate) ttl_ms in
      if won
      then (record { won = true; holder = some candidate }, s₁)
      else (record { won = false; holder = lock_holder s₁ job }, s₁)

  unfoldable pub domain_class_of : State → String → Option String
  domain_class_of s domain = held_text (get s (domain_class domain))

  -- The start of `dispatchScrapeJob`, up to the answer on the domain's class.
  unfoldable pub route : Option String → Point
  unfolding select_queue
  route class_raw =
      if str_eq (or_else class_raw "") "blocked"
      then done none
      else classified (select_queue class_raw)

  unfoldable pub advance : World → ScrapeJob → ℕ → Point → Point × World
  unfolding route lock_holder domain_class_of add_job remove_job add_to_batch keep_batch
  advance w job eclipse_ms start = (route (domain_class_of w.redis job.domain), w)
  advance w job eclipse_ms (classified q) =
      (elim (lock_holder w.redis job) [ some id ↦ batching id | none ↦ unlocked q ], w)
  advance w job eclipse_ms (unlocked q) =
      let streak = get_unchanged_streak 𝓡 w.redis job.domain job.url_path in
      (
        elim (compute_adaptive_interval job.plan streak eclipse_ms) [
          | some interval_ms ↦ measured q interval_ms
          | none ↦ failed
        ],
        w,
      )
  advance w job eclipse_ms (measured q interval_ms) =
      let (id, w₁) = add_job w q job in (enqueued q interval_ms id, w₁)
  advance w job eclipse_ms (enqueued q interval_ms id) =
      let (won, s) = set_nx w.redis (lock_key job) (text id) interval_ms in
      (if won then done (some (id, false)) else refused q interval_ms id, record w { redis = s })
  advance w job eclipse_ms (refused q interval_ms id) =
      (losing q interval_ms id (lock_holder w.redis job), w)
  advance w job eclipse_ms (losing q interval_ms id holder) =
      (elim holder [ some h ↦ batching h | none ↦ orphaned q interval_ms ], remove_job w q id)
  advance w job eclipse_ms (batching id) =
      (batched_onto id, record w { redis = add_to_batch w.redis id job.competitor_tracking_ids })
  advance w job eclipse_ms (batched_onto id) = (
    done (some (id, true)),
    record w { redis = keep_batch w.redis id job.competitor_tracking_ids },
  )
  advance w job eclipse_ms (orphaned q interval_ms) =
      let (id, w₁) = add_job w q job in (recreated interval_ms id, w₁)
  advance w job eclipse_ms (recreated interval_ms id) = (
    done (some (id, false)),
    record w { redis = set w.redis (lock_key job) (text id) interval_ms },
  )
  advance w job eclipse_ms (done r) = (done r, w)
  advance w job eclipse_ms failed = (failed, w)

  -- One call of `dispatchScrapeJob`.
  pub record Dispatcher : Type 0 where
    pub job : ScrapeJob
    pub eclipse_ms : ℕ
    pub point : Point

  unfoldable pub advance_one : World → Dispatcher → Dispatcher × World
  unfolding advance
  advance_one w d =
      let (p, w₁) = advance w d.job d.eclipse_ms d.point in (record d { point = p }, w₁)

  -- The dispatcher at an index takes its next step; an index out of range is nobody's.
  unfoldable pub step_at : World → List Dispatcher → ℕ → List Dispatcher × World
  unfolding advance_one
  step_at w [] i = ([], w)
  step_at w (d ∷ ds) zero = let (d₁, w₁) = advance_one w d in (d₁ ∷ ds, w₁)
  step_at w (d ∷ ds) (suc i) = let (ds₁, w₁) = step_at w ds i in (d ∷ ds₁, w₁)

  -- The dispatchers take turns in the order of a schedule.
  unfoldable pub interleave : World → List Dispatcher → List ℕ → List Dispatcher × World
  unfolding step_at
  interleave w ds [] = (ds, w)
  interleave w ds (i ∷ is) = let (ds₁, w₁) = step_at w ds i in interleave w₁ ds₁ is
