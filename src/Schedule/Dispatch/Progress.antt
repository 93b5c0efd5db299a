-- ===== src/Schedule/Dispatch/Progress.antt =====
-- scheduler.ts, lines 44-103: how many steps a dispatcher has left, among others that run.
use new_specter.Redis.{Redis}
use new_specter.Schedule.Dispatch.{
  Point, start, classified, unlocked, measured, enqueued, refused, losing, batching, batched_onto,
  orphaned, recreated, done, failed, World, Dispatcher, step_at, interleave,
}
use new_specter.Common.{
  ℕ, zero, suc, ◌+◌, String, ◌≡◌, refl, ap, ◌∙◌, Bool, true, false, List, [], ◌∷◌, ◌==◌,
  if◌then◌else◌, length,
}

abbrev pub steps_left : Point → ℕ
steps_left start = 9
steps_left (classified q) = 8
steps_left (unlocked q) = 7
steps_left (measured q interval_ms) = 6
steps_left (enqueued q interval_ms id) = 5
steps_left (refused q interval_ms id) = 4
steps_left (losing q interval_ms id holder) = 3
steps_left (batching id) = 2
steps_left (batched_onto id) = 1
steps_left (orphaned q interval_ms) = 2
steps_left (recreated interval_ms id) = 1
steps_left (done r) = 0
steps_left failed = 0

abbrev pub has_ended : Point → Bool
has_ended (done r) = true
has_ended failed = true
has_ended _ = false

abbrev pub turns : ℕ → List ℕ → ℕ
turns i [] = 0
turns i (j ∷ js) = if i == j then turns i js + 1 else turns i js

module _ (𝓡 : Redis) (job_id : ℕ → String) where
  pub step_at-length :
      (w : World 𝓡 job_id) (ds : List (Dispatcher 𝓡 job_id)) (i : ℕ)
      → length (step_at 𝓡 job_id w ds i).0 ≡ length ds
  unfolding step_at
  step_at-length w [] i = refl
  step_at-length w (e ∷ ds) zero = refl
  step_at-length w (e ∷ ds) (suc i) = ap suc (step_at-length w ds i)

  pub interleave-length :
      (w : World 𝓡 job_id) (ds : List (Dispatcher 𝓡 job_id)) (is : List ℕ)
      → length (interleave 𝓡 job_id w ds is).0 ≡ length ds
  unfolding interleave
  interleave-length w ds [] = refl
  interleave-length w ds (i ∷ is) =
      let (ds₁, w₁) = step_at 𝓡 job_id w ds i in interleave-length w₁ ds₁ is ∙ step_at-length w ds i
