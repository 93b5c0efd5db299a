-- ===== src/Schedule/Streak.antt =====
-- state-ttl.ts: the TTLs of state keys and the unchanged-streak counter. A price is the natural
-- number that it is in some fixed smallest unit.
use new_specter.Redis.{
  Redis, domain_class, last_price, unchanged_streak, observed_price, Value, text, integer,
  price_text, fingerprint,
}
use new_specter.Schedule.Plans.{Plan, recon, eclipse, plan_interval, plan_max_interval}
use new_specter.Common.{
  ℕ, ◌+◌, ◌*◌, ◌/◌, max, String, Bool, true, false, not, ◌&&◌, Option, none, some, ◌==◌,
  if◌then◌else◌, or_else, str_eq,
}

abbrev pub domain_class_ttl_seconds : ℕ
domain_class_ttl_seconds = 7 * 24 * 60 * 60

-- `Math.ceil(ms * 2 / 1000)`.
abbrev pub twice_in_seconds : ℕ → ℕ
twice_in_seconds ms = (ms * 2 + 999) / 1000

unfoldable pub last_price_ttl_seconds : Option Plan → ℕ
unfolding plan_interval
last_price_ttl_seconds plan = twice_in_seconds (plan_interval (or_else plan recon))

unfoldable pub streak_ttl_seconds : Option Plan → ℕ → ℕ
unfolding plan_max_interval
streak_ttl_seconds (some eclipse) eclipse_ms =
    twice_in_seconds (max (plan_max_interval eclipse) eclipse_ms)
streak_ttl_seconds plan eclipse_ms = twice_in_seconds (plan_max_interval (or_else plan recon))

abbrev pub value_eq : Value → Value → Bool
value_eq (fingerprint p b) (fingerprint q true) = p == q && b
value_eq (fingerprint p b) (fingerprint q false) = p == q && not b
value_eq (text s) (text t) = str_eq s t
value_eq (integer n) (integer m) = n == m
value_eq (price_text n) (price_text m) = n == m
value_eq _ _ = false

module _ (𝓡 : Redis) where
  open 𝓡 use {State, get, set, incr, expire}

  unfoldable pub cache_last_price : State → String → String → ℕ → Option Plan → State
  cache_last_price s domain path price plan =
      set s (last_price domain path) (price_text price) (last_price_ttl_seconds plan * 1000)

  unfoldable pub cache_domain_class : State → String → String → State
  cache_domain_class s domain classification =
      set s (domain_class domain) (text classification) (domain_class_ttl_seconds * 1000)

  -- The first branch of `recordPriceObservation`: the observation repeats.
  unfoldable pub extend_streak : State → String → String → ℕ → ℕ × State
  extend_streak s domain path ttl =
      let (streak, s₁) = incr s (unchanged_streak domain path) in
      let s₂ = expire s₁ (unchanged_streak domain path) ttl in
      (streak, expire s₂ (observed_price domain path) ttl)

  -- The second branch: a first sighting or a change.
  unfoldable pub reset_streak : State → String → String → Value → ℕ → ℕ × State
  reset_streak s domain path seen ttl =
      let s₁ = set s (unchanged_streak domain path) (integer 0) ttl in
      (0, set s₁ (observed_price domain path) seen ttl)

  -- `recordPriceObservation`: the resulting streak and the state.
  unfoldable pub record_price_observation :
      State → String → String → ℕ → Bool → Option Plan → ℕ → ℕ × State
  record_price_observation s domain path price in_stock plan eclipse_ms =
      let ttl = streak_ttl_seconds plan eclipse_ms * 1000 in
      let seen = fingerprint price in_stock in
      elim (get s (observed_price domain path)) [
        | none ↦ reset_streak s domain path seen ttl
        | some prev ↦
            if value_eq prev seen
            then extend_streak s domain path ttl
            else reset_streak s domain path seen ttl
      ]

  -- `getUnchangedStreak`. The scraper writes nothing but integers to these keys.
  unfoldable pub get_unchanged_streak : State → String → String → ℕ
  get_unchanged_streak s domain path = elim (get s (unchanged_streak domain path)) [
    | some (integer n) ↦ n
    | _ ↦ 0
  ]
