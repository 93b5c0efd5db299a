-- ===== src/Rate/Admission.antt =====
-- workers/rate-limiter.ts, `evaluateTokenBucket`: how many requests a bucket admits, and when.
use native.Mathlib.Nat.{
  mul-le-mul, mul-le-mul_right, le_of_mul-le-mul_right, le_refl, div-add-mod, mod-lt,
}
use new_specter.Rate.Bucket.{BucketState, TokenDecision, refilled, evaluate_token_bucket, ceil_div}
use new_specter.Common.{
  ℕ, ◌+◌, ◌-◌, ◌*◌, ◌≤◌, ◌<◌, min, ◌≡◌, ap, ◌∙◌, ◌↔◌, inl, inr, Bool, true, false, Option, none,
  some, List, [], ◌∷◌, arith, leb, if◌then◌else◌, leb→le, Bool-cases,
}

abbrev stored : TokenDecision → BucketState
stored d = record { tokens = d.tokens; ts = d.ts }

-- Requests at these times, each on the state that the one before it left; the number admitted.
unfoldable pub admitted : Option BucketState → ℕ → ℕ → List ℕ → ℕ
admitted state limit window [] = 0
admitted state limit window (t ∷ ts) =
    let d = evaluate_token_bucket state limit window t in
    let rest = admitted (some (stored d)) limit window ts in if d.allowed then rest + 1 else rest

-- Times that do not fall, from `from` up to `last`.
abbrev pub IsAscending : ℕ → List ℕ → ℕ → Type 0
IsAscending from [] last = from ≤ last
IsAscending from (t ∷ ts) last = (from ≤ t) × IsAscending t ts last

-- A bucket never holds more than `limit` tokens.
pub evaluate-capacity :
    (state : Option BucketState) (limit window now : ℕ)
    → (evaluate_token_bucket state limit window now).tokens ≤ limit * window
unfolding evaluate_token_bucket refilled
evaluate-capacity none limit window now = ground arith
evaluate-capacity (some s) limit window now = ground arith

evaluate-ts :
    (state : Option BucketState) (limit window now : ℕ)
    → (evaluate_token_bucket state limit window now).ts ≡ now
unfolding evaluate_token_bucket
evaluate-ts state limit window now = ground arith

-- An admitted request pays one token, a refused one nothing.
evaluate-pays :
    (state : Option BucketState) (limit window now : ℕ)
    → let d = evaluate_token_bucket state limit window now in
      (if d.allowed then window else 0) + d.tokens ≡ refilled state limit window now
unfolding evaluate_token_bucket
evaluate-pays none limit window now = ground arith
evaluate-pays (some s) limit window now = ground arith

refilled-le :
    (s : BucketState) (limit window now : ℕ)
    → refilled (some s) limit window now ≤ s.tokens + (now - s.ts) * limit
unfolding refilled
refilled-le s limit window now = ground arith

IsAscending-le : (from : ℕ) (times : List ℕ) (last : ℕ) → IsAscending from times last → from ≤ last
IsAscending-le from [] last h = h
IsAscending-le from (t ∷ ts) last h = omega (arith, IsAscending-le t ts last h.1)

split_elapsed :
    (a t b limit : ℕ) → a ≤ t → t ≤ b → (b - a) * limit ≡ (t - a) * limit + (b - t) * limit
split_elapsed a t b limit p q = ap (λ (k : ℕ). k * limit) (add_split a t b p q) ∙ omega arith
  where
    add_split : (a t b : ℕ) → a ≤ t → t ≤ b → b - a ≡ (t - a) + (b - t)
    add_split a t b p q = omega arith

count_step :
    (b : Bool) (rest window : ℕ)
    → (if b then rest + 1 else rest) * window ≡ rest * window + (if b then window else 0)
count_step true rest window = omega arith
count_step false rest window = omega arith

refilled_fresh-le : (limit window now : ℕ) → refilled none limit window now ≤ limit * window
unfolding refilled
refilled_fresh-le limit window now = ground arith

-- The requests admitted so far, in tokens, are at most what was there and what came in since.
admitted-le :
    (s : BucketState) (limit window : ℕ) (times : List ℕ) (last : ℕ)
    → IsAscending s.ts times last
    → admitted (some s) limit window times * window ≤ s.tokens + (last - s.ts) * limit
unfolding admitted
admitted-le s limit window [] last asc = omega arith
admitted-le s limit window (t ∷ ts) last (le, asc) =
    let d = evaluate_token_bucket (some s) limit window t in
    let now = evaluate-ts (some s) limit window t in
    let ih = admitted-le (stored d) limit window ts last (rw now asc) in
    let elapsed = split_elapsed s.ts t last limit le (IsAscending-le t ts last asc) in
    let same = ap (λ (k : ℕ). (last - k) * limit) now in
    rw (count_step d.allowed (admitted (some (stored d)) limit window ts) window) (
      omega (
        arith,
        ih,
        elapsed,
        same,
        evaluate-pays (some s) limit window t,
        refilled-le s limit window t,
      ))

-- From a full bucket, requests at times that do not fall are admitted at most `limit` times and then
-- once for each `window / limit` that passes.
pub admitted-bounded :
    (limit window first last : ℕ) (times : List ℕ)
    → IsAscending first times last
    → admitted none limit window (first ∷ times) * window
      ≤ (limit * window) + (last - first) * limit
unfolding admitted
admitted-bounded limit window first last times asc =
    let d = evaluate_token_bucket none limit window first in
    let now = evaluate-ts none limit window first in
    let ih = admitted-le (stored d) limit window times last (rw now asc) in
    let same = ap (λ (k : ℕ). (last - k) * limit) now in
    rw (count_step d.allowed (admitted (some (stored d)) limit window times) window) (
      omega (
        arith,
        ih,
        same,
        evaluate-pays none limit window first,
        refilled_fresh-le limit window first,
      ))

-- So no window of `windowMs` sees more than twice the limit.
pub admitted-window :
    (limit window first last : ℕ) (times : List ℕ)
    → 0 < window
    → IsAscending first times last
    → last ≤ first + window
    → admitted none limit window (first ∷ times) ≤ limit + limit
admitted-window limit window first last times pos asc short =
    le_of_mul-le-mul_right
      (omega (
        arith,
        admitted-bounded limit window first last times asc,
        mul-le-mul_right limit (elapsed first last short),
      ))
      pos
  where
    elapsed : (a b : ℕ) → b ≤ a + window → b - a ≤ window
    elapsed a b h = omega arith

ceil_div-le_iff : (a b k : ℕ) → 0 < b → (ceil_div a b ≤ k) ↔ (a ≤ k * b)
ceil_div-le_iff a b k pos =
    let q = ceil_div a b in
    let whole = div-add-mod (a + (b - 1)) b in
    let rest = mod-lt (a + (b - 1)) pos in
    (
      λ h. omega (arith, whole, rest, mul-le-mul (le_refl b) h),
      λ h. elim (Bool-cases (leb q k)) [
        | inl le ↦ leb→le q k le
        | inr gt ↦ absurd (omega (arith, whole, rest, h, mul-le-mul (le_refl b) (above q k gt)))
      ],
    )
  where
    above : (q k : ℕ) → leb q k ≡ false → k + 1 ≤ q
    above q k h = ground arith

refused_lem :
    (state : Option BucketState) (limit window now : ℕ)
    → let d = evaluate_token_bucket state limit window now in
      d.allowed ≡ false
      → (d.tokens < window) × (d.retry_after_ms ≡ ceil_div (window - d.tokens) limit) × (d.ts ≡ now)
unfolding evaluate_token_bucket
refused_lem state limit window now e = ground arith

allowed_iff :
    (state : Option BucketState) (limit window now : ℕ)
    → ((evaluate_token_bucket state limit window now).allowed ≡ true)
      ↔ (window ≤ refilled state limit window now)
unfolding evaluate_token_bucket
allowed_iff state limit window now = ground arith

refilled_lem :
    (s : BucketState) (limit window since now : ℕ)
    → s.ts ≡ since
    → refilled (some s) limit window now ≡ min (limit * window) (s.tokens + (now - since) * limit)
unfolding refilled
refilled_lem s limit window since now e = rw (← e)

-- A refused request learns exactly how long to wait: the bucket as it was left refuses every request
-- before then, and admits every request from then on.
pub retry_after_exact :
    (state : Option BucketState) (limit window now later : ℕ)
    → 0 < limit
    → let d = evaluate_token_bucket state limit window now in
      d.allowed ≡ false
      → now ≤ later
      → ((evaluate_token_bucket (some (stored d)) limit window later).allowed ≡ true)
        ↔ (now + d.retry_after_ms ≤ later)
retry_after_exact state limit window now later pos refused le =
    let d = evaluate_token_bucket state limit window now in
    let (short, wait, stamp) = refused_lem state limit window now refused in
    let room : window ≤ limit * window = grind arith in
    let level : ℕ = d.tokens + (later - now) * limit in
    let full : refilled (some (stored d)) limit window later ≡ min (limit * window) level =
      refilled_lem (stored d) limit window now later stamp in
    let enough = ceil_div-le_iff (window - d.tokens) limit (later - now) pos in
    let admits = allowed_iff (some (stored d)) limit window later in
    ground (arith, wait, short, room, full, enough, admits)

refilled_idle :
    (s : BucketState) (limit window now : ℕ)
    → s.ts + window ≤ now
    → refilled (some s) limit window now ≡ refilled none limit window now
unfolding refilled
refilled_idle s limit window now idle =
    let enough = mul-le-mul (le_refl limit) (elapsed s.ts window now idle) in ground arith
  where
    elapsed : (a w n : ℕ) → a + w ≤ n → w ≤ n - a
    elapsed a w n h = omega arith

-- Redis may forget a bucket that was idle for a window: a full bucket decides as the kept one.
pub expiry_harmless :
    (s : BucketState) (limit window now : ℕ)
    → s.ts + window ≤ now
    → evaluate_token_bucket (some s) limit window now ≡ evaluate_token_bucket none limit window now
unfolding evaluate_token_bucket
expiry_harmless s limit window now idle = rw (refilled_idle s limit window now idle)
