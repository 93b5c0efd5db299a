-- ===== src/Schedule/Tests.antt =====
-- The scheduler at concrete inputs: two dispatchers of one URL race for its lock.
use new_specter.Redis.{domain_class, unchanged_streak, text, integer}
use new_specter.Redis.Memory.{Memory, memory_redis, empty_memory}
use new_specter.Schedule.Plans.{
  cipher, phantom, predator, plan_floor, plan_cap, compute_adaptive_interval, plan_max_interval,
}
use new_specter.Schedule.Intervals.{interval_within}
use new_specter.Schedule.Streak.{get_unchanged_streak}
use new_specter.Schedule.Dispatch.{
  ScrapeJob, QueuedJob, start, done, Dispatched, World, Dispatcher, interleave, lock_key,
  union_batched_tracking_ids, union_ids, domain_class_of,
}
use new_specter.Schedule.Dispatch.Lock.{Locks}
use new_specter.Schedule.Dispatch.Lock.Agreement.{dispatchers_agree}
use new_specter.Schedule.Repeats.{RepeatEntry, RepeatJob, schedule_repeat_jobs}
use new_specter.Common.{
  ℕ, ◌≤◌, String, ◌≡◌, refl, ◌≢◌, inl, Bool, true, false, none, some, List, [], ◌∷◌, map, arith,
  ◌==◌, if◌then◌else◌, get_or, str_eq, str_eq_iff,
}

abbrev job_id : ℕ → String
job_id n = if n == 1 then "1" else if n == 2 then "2" else "3"

one_of : (b : Bool) (s t : String) → s ≢ "" → t ≢ "" → (if b then s else t) ≢ ""
one_of true s t h k = h
one_of false s t h k = k

shown : (s : String) → str_eq s "" ≡ false → s ≢ ""
shown s h e = let f = (str_eq_iff s "").1 e in cc

named : (n : ℕ) → job_id n ≢ ""
named n =
    one_of (n == 1) "1" (if n == 2 then "2" else "3") (shown "1" refl)
      (one_of (n == 2) "2" "3" (shown "2" refl) (shown "3" refl))

abbrev job_of : String → ScrapeJob
job_of tracking = record {
  url = "https://shop.test/a";
  domain = "shop.test";
  url_path = "/a";
  competitor_tracking_ids = tracking ∷ [];
  plan = some predator;
}

abbrev dispatcher : String → Dispatcher memory_redis job_id
dispatcher tracking = record { job = job_of tracking; eclipse_ms = 300_000; point = start }

abbrev racers : List (Dispatcher memory_redis job_id)
racers = dispatcher "alpha" ∷ dispatcher "beta" ∷ []

abbrev quiet : World memory_redis job_id
quiet = record { redis = empty_memory; made = λ q. 0; jobs = [] }

abbrev in_turn : List ℕ
in_turn = 0 ∷ 1 ∷ 0 ∷ 1 ∷ 0 ∷ 1 ∷ 0 ∷ 1 ∷ 0 ∷ 1 ∷ 0 ∷ 1 ∷ 0 ∷ 1 ∷ 0 ∷ 1 ∷ 0 ∷ 1 ∷ []

-- Both create a job; the first wins the lock, and the second batches its id onto the first's job.
abbrev after_race : List (Dispatcher memory_redis job_id) × World memory_redis job_id
after_race = interleave memory_redis job_id quiet racers in_turn

race :
    ((get_or after_race.0 0 (dispatcher "")).point ≡ done (some ("1", false)))
    × ((get_or after_race.0 1 (dispatcher "")).point ≡ done (some ("1", true)))
    × (map (λ (j : QueuedJob). j.id) after_race.1.jobs ≡ "1" ∷ [])
    × (union_batched_tracking_ids memory_redis job_id after_race.1.redis "1" ("alpha" ∷ [])
        ≡ "alpha" ∷ "beta" ∷ [])
unfolding interleave get_unchanged_streak compute_adaptive_interval plan_floor plan_cap
    union_batched_tracking_ids union_ids
race = (refl, refl, refl, refl)

free-Locks : Locks memory_redis job_id quiet.redis
free-Locks domain path = inl refl

same_lock :
    lock_key memory_redis job_id (get_or after_race.0 0 (dispatcher "")).job
    ≡ lock_key memory_redis job_id (get_or after_race.0 1 (dispatcher "")).job
unfolding interleave get_unchanged_streak compute_adaptive_interval plan_floor plan_cap
    plan_max_interval
same_lock = refl

abbrev first_result : Dispatched
first_result = ("1", false)

abbrev second_result : Dispatched
second_result = ("1", true)

dispatchers_agree_example : first_result.0 ≡ second_result.0
dispatchers_agree_example =
    dispatchers_agree memory_redis job_id named quiet racers in_turn 0 1 (dispatcher "")
      first_result second_result free-Locks refl (omega arith) (omega arith) race.0 race.1 same_lock

abbrev half_blocked : Memory
half_blocked = record {
  values = λ k. elim k [
    | domain_class d ↦ if str_eq d "shut.test" then some (text "blocked") else none
    | unchanged_streak d p ↦ some (integer 7)
    | _ ↦ none
  ];
  sets = λ k. [];
}

abbrev entry_of : String → RepeatEntry
entry_of domain = record {
  url = domain;
  domain = domain;
  url_path = "/";
  competitor_tracking_ids = [];
}

abbrev two_entries : List RepeatEntry
two_entries = entry_of "shut.test" ∷ entry_of "shop.test" ∷ []

registered :
    map
      (λ (r : RepeatJob). r.every)
      (schedule_repeat_jobs memory_redis job_id half_blocked cipher two_entries 300_000)
    ≡ some 43_200_000 ∷ []
unfolding schedule_repeat_jobs domain_class_of get_unchanged_streak compute_adaptive_interval
    plan_floor plan_cap plan_max_interval
registered = refl

interval_within_example :
    (i : ℕ) × (compute_adaptive_interval (some phantom) 9 300_000 ≡ some i)
    × (plan_floor (some phantom) 300_000 ≤ i)
    × (i ≤ plan_cap (some phantom) 300_000)
interval_within_example = interval_within (some phantom) 9 300_000 (omega arith)
