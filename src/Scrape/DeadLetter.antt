-- ===== src/Scrape/DeadLetter.antt =====
-- workers/http.ts, lines 255-277: what the worker does when the queue tells it that a job failed.
-- The handlers of the probe and the Playwright worker are the same but for what they log.
use new_specter.Schedule.Dispatch.{ScrapeJob}
use new_specter.Common.{
  ℕ, zero, suc, ◌<◌, String, ◌≡◌, refl, ap, ◌≢◌, true, false, Option, List, ◌∷◌, map, arith, ltb,
  if◌then◌else◌, lt→ltb, or_else,
}

-- The notice of a failure that is sent to specter-api.
pub record FailureNotice : Type 0 where
  pub domain : String
  pub url_path : String
  pub competitor_tracking_ids : List String
  pub error : String

pub record DeadWorld : Type 0 where
  pub dead_letters : List (ScrapeJob × Option ℕ)
  pub notices : List FailureNotice

-- The options of the job: how often it is tried at most, and its priority.
pub record JobOptions : Type 0 where
  pub attempts : Option ℕ
  pub priority : Option ℕ

abbrev pub max_attempts : JobOptions → ℕ
max_attempts opts = or_else opts.attempts 3

unfoldable pub on_failed : DeadWorld → ScrapeJob → JobOptions → ℕ → String → DeadWorld
on_failed w job opts attempts_made error =
    if ltb attempts_made (max_attempts opts) then w else record {
      dead_letters = (job, opts.priority) ∷ w.dead_letters;
      notices =
          record {
            domain = job.domain;
            url_path = job.url_path;
            competitor_tracking_ids = job.competitor_tracking_ids;
            error = error;
          }
          ∷ w.notices;
    }

-- The events of the first `k` failures of a job, in order.
unfoldable pub fail_until : DeadWorld → ScrapeJob → JobOptions → String → ℕ → DeadWorld
unfolding on_failed
fail_until w job opts error zero = w
fail_until w job opts error (suc k) =
    let before = fail_until w job opts error k in on_failed before job opts (suc k) error

still_retried :
    (w : DeadWorld) (job : ScrapeJob) (opts : JobOptions) (error : String) (k : ℕ)
    → k < max_attempts opts
    → fail_until w job opts error k ≡ w
unfolding fail_until
still_retried w job opts error zero h = refl
still_retried w job opts error (suc k) h =
    let early : ltb (suc k) (max_attempts opts) ≡ true = lt→ltb (suc k) (max_attempts opts) h in
    rw early (still_retried w job opts error k (omega arith))

too_few : (m : ℕ) → 0 < m → 0 ≢ m
too_few m h e = omega arith

last_failure :
    (w : DeadWorld) (job : ScrapeJob) (opts : JobOptions) (error : String) (k : ℕ)
    → 0 < max_attempts opts
    → k ≡ max_attempts opts
    → ((fail_until w job opts error k).dead_letters ≡ (job, opts.priority) ∷ w.dead_letters)
      × (map
            (λ (n : FailureNotice). n.competitor_tracking_ids)
            (fail_until w job opts error k).notices
          ≡ job.competitor_tracking_ids
            ∷ map (λ (n : FailureNotice). n.competitor_tracking_ids) w.notices)
unfolding fail_until
last_failure w job opts error zero h e = elim (too_few (max_attempts opts) h e) [ ]
last_failure w job opts error (suc k) h e =
    let late : ltb (suc k) (max_attempts opts) ≡ false = ground arith in
    let before = still_retried w job opts error k (omega arith) in
    rw late (
      ap (λ (v : DeadWorld). (job, opts.priority) ∷ v.dead_letters) before,
      ap
          (λ (v : DeadWorld).
            job.competitor_tracking_ids
            ∷ map (λ (n : FailureNotice). n.competitor_tracking_ids) v.notices)
          before,
    )

-- A job that fails every time adds nothing to the dead letters while it has attempts left, and one
-- dead letter and one notice with its own tracking ids at its last attempt.
pub dead_lettered_once :
    (w : DeadWorld) (job : ScrapeJob) (opts : JobOptions) (error : String) (k : ℕ)
    → k < max_attempts opts
    → let last = fail_until w job opts error (max_attempts opts) in
      (fail_until w job opts error k ≡ w)
      × (last.dead_letters ≡ (job, opts.priority) ∷ w.dead_letters)
      × (map (λ (n : FailureNotice). n.competitor_tracking_ids) last.notices
          ≡ job.competitor_tracking_ids
            ∷ map (λ (n : FailureNotice). n.competitor_tracking_ids) w.notices)
dead_lettered_once w job opts error k h =
    let last = last_failure w job opts error (max_attempts opts) (omega arith) refl in
    (still_retried w job opts error k h, last.0, last.1)
