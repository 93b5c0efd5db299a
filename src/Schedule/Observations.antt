-- ===== src/Schedule/Observations.antt =====
-- state-ttl.ts, lines 82-125: the streak counter over a sequence of observations.
use new_specter.Redis.{Redis, unchanged_streak, observed_price, integer, fingerprint}
use new_specter.Schedule.Plans.{Plan}
use new_specter.Schedule.Streak.{value_eq, record_price_observation}
use new_specter.Common.{ℕ, ◌+◌, String, ◌≡◌, Bool, Option, some, List, [], ◌∷◌, if◌then◌else◌}

abbrev pub Observation : Type 0
Observation = ℕ × Bool

abbrev pub same_observation : Observation → Observation → Bool
same_observation a b = value_eq (fingerprint a.0 a.1) (fingerprint b.0 b.1)

-- How many observations at the end repeat the one before them; `n` repeat `prev` so far.
abbrev pub repeats : Observation → ℕ → List Observation → ℕ
repeats prev n [] = n
repeats prev n (o ∷ os) = repeats o (if same_observation prev o then n + 1 else 0) os

module _ (𝓡 : Redis) (domain path : String) (plan : Option Plan) (eclipse_ms : ℕ) where
  open 𝓡 use {
    State, get, set, incr, expire, get-set, get-set_ne, incr-integer, get-incr_ne, get-expire,
  }

  unfoldable pub record_all : State → List Observation → State
  record_all s [] = s
  record_all s (o ∷ os) =
      record_all (record_price_observation 𝓡 s domain path o.0 o.1 plan eclipse_ms).1 os

  -- Both keys hold what the last observation left there.
  abbrev pub Remembers : State → Observation → ℕ → Type 0
  Remembers s o n =
      (get s (observed_price domain path) ≡ some (fingerprint o.0 o.1))
      × (get s (unchanged_streak domain path) ≡ some (integer n))
