-- ===== src/Schedule/Repeats.antt =====
-- scheduler.ts, lines 105-154: the repeat jobs that are registered for a plan's URLs. What the
-- queue does with a registration is not modelled: the result is the calls of `queue.add`.
use new_specter.Redis.{Redis}
use new_specter.Schedule.Plans.{Plan, priority_of, plan_floor, plan_cap, compute_adaptive_interval}
use new_specter.Schedule.Intervals.{interval_within}
use new_specter.Schedule.Streak.{get_unchanged_streak}
use new_specter.Schedule.Dispatch.{Queue, select_queue, ScrapeJob, domain_class_of}
use new_specter.Common.{
  ℕ, ◌<◌, String, ◌≡◌, refl, ap, inl, inr, Bool, true, false, not, ◌&&◌, Option, none, some, List,
  [], ◌∷◌, map, arith, leb, if◌then◌else◌, Bool-cases, or_else, all_of, filter_by, str_eq,
}

pub record RepeatEntry : Type 0 where
  pub url : String
  pub domain : String
  pub url_path : String
  pub competitor_tracking_ids : List String

-- A registration; `jobId` is made of the plan, the domain and the path, and `every` is `none` where
-- the source computes NaN.
pub record RepeatJob : Type 0 where
  pub queue : Queue
  pub job_data : ScrapeJob
  pub priority : ℕ
  pub every : Option ℕ
  pub job_id : Plan × String × String

module _ (𝓡 : Redis) (job_id : ℕ → String) where
  open 𝓡 use {State}

  abbrev pub is_blocked : State → String → Bool
  is_blocked s domain = str_eq (or_else (domain_class_of 𝓡 job_id s domain) "") "blocked"

  unfoldable pub repeat_job : State → Plan → RepeatEntry → ℕ → RepeatJob
  unfolding priority_of select_queue
  repeat_job s plan entry eclipse_ms =
      let streak = get_unchanged_streak 𝓡 s entry.domain entry.url_path in
      record {
        queue = select_queue (domain_class_of 𝓡 job_id s entry.domain);
        job_data = record {
          url = entry.url;
          domain = entry.domain;
          url_path = entry.url_path;
          competitor_tracking_ids = entry.competitor_tracking_ids;
          plan = some plan;
        };
        priority = priority_of (some plan);
        every = compute_adaptive_interval (some plan) streak eclipse_ms;
        job_id = (plan, entry.domain, entry.url_path);
      }

  unfoldable pub schedule_repeat_jobs : State → Plan → List RepeatEntry → ℕ → List RepeatJob
  unfolding repeat_job
  schedule_repeat_jobs s plan [] eclipse_ms = []
  schedule_repeat_jobs s plan (entry ∷ entries) eclipse_ms =
      let rest = schedule_repeat_jobs s plan entries eclipse_ms in
      if is_blocked s entry.domain then rest else repeat_job s plan entry eclipse_ms ∷ rest

  -- The registration runs at the plan's pace: never faster than its floor nor slower than its cap.
  abbrev pub keeps_pace : Plan → ℕ → RepeatJob → Bool
  keeps_pace plan eclipse_ms r = elim r.every [
    | some ms ↦
        leb (plan_floor (some plan) eclipse_ms) ms && leb ms (plan_cap (some plan) eclipse_ms)
    | none ↦ false
  ]

  repeat_job-keeps_pace :
      (s : State) (plan : Plan) (entry : RepeatEntry) (eclipse_ms : ℕ)
      → 0 < eclipse_ms
      → keeps_pace plan eclipse_ms (repeat_job s plan entry eclipse_ms) ≡ true
  unfolding repeat_job
  repeat_job-keeps_pace s plan entry eclipse_ms h =
      let streak = get_unchanged_streak 𝓡 s entry.domain entry.url_path in
      let (i, e, lo, hi) = interval_within (some plan) streak eclipse_ms h in
      rw (e, keeps_pace) (ground arith)

  -- With a positive ECLIPSE interval, exactly the entries whose domain is not blocked are
  -- registered, in their order and under ids of their plan, domain and path, and each repeats within
  -- the pace of the plan.
  pub registrations_exact :
      (s : State) (plan : Plan) (entries : List RepeatEntry) (eclipse_ms : ℕ)
      → 0 < eclipse_ms
      → let rs = schedule_repeat_jobs s plan entries eclipse_ms in
        (map (λ (r : RepeatJob). r.job_id) rs
          ≡ map
              (λ (e : RepeatEntry). (plan, e.domain, e.url_path))
              (filter_by (λ (e : RepeatEntry). not (is_blocked s e.domain)) entries))
        × (all_of (keeps_pace plan eclipse_ms) rs ≡ true)
  unfolding schedule_repeat_jobs repeat_job
  registrations_exact s plan [] eclipse_ms h = (refl, refl)
  registrations_exact s plan (entry ∷ entries) eclipse_ms h =
      let (ids, pace) = registrations_exact s plan entries eclipse_ms h in
      let first = repeat_job-keeps_pace s plan entry eclipse_ms h in
      elim (Bool-cases (is_blocked s entry.domain)) [
        | inl e ↦ rw e (ids, pace)
        | inr e ↦ rw e (ap (λ l. (plan, entry.domain, entry.url_path) ∷ l) ids, ground arith)
      ]
