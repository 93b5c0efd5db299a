-- ===== src/Rate/Bucket.antt =====
-- workers/rate-limiter.ts, lines 5-102 and 206-224: the token bucket and its Lua script. Tokens are
-- counted in units of `1 / windowMs` of a token, so that the refill `elapsed * limit / windowMs` is
-- the natural number `elapsed * limit`; times and the limit are natural numbers.
use new_specter.Common.{
  ℕ, zero, suc, ◌+◌, ◌-◌, ◌*◌, ◌/◌, min, String, ◌≡◌, Bool, true, false, not, ◌||◌, Option, none,
  some, arith, ltb, ◌==◌, if◌then◌else◌, is_some, or_else, matches_ci,
}

abbrev pub amazon_limit : ℕ
amazon_limit = 6

abbrev pub flipkart_limit : ℕ
flipkart_limit = 10

abbrev pub shopify_limit : ℕ
shopify_limit = 30

abbrev pub default_rate : ℕ
default_rate = 20

abbrev pub window_ms : ℕ
window_ms = 60_000

unfoldable pub default_limit : String → ℕ
unfolding matches_ci
default_limit domain =
    if matches_ci domain "amazon."
    then amazon_limit
    else if matches_ci domain "flipkart.com"
    then flipkart_limit
    else if matches_ci domain "myshopify.com"
    then shopify_limit
    else default_rate

pub record BucketState : Type 0 where
  pub tokens : ℕ
  pub ts : ℕ

pub record TokenDecision : Type 0 where
  pub allowed : Bool
  pub retry_after_ms : ℕ
  pub tokens : ℕ
  pub ts : ℕ

-- `Math.ceil(a / b)`.
abbrev pub ceil_div : ℕ → ℕ → ℕ
ceil_div a b = (a + (b - 1)) / b

-- The tokens after the refill.
unfoldable pub refilled : Option BucketState → ℕ → ℕ → ℕ → ℕ
refilled none limit window now = min (limit * window) (limit * window + (now - now) * limit)
refilled (some s) limit window now = min (limit * window) (s.tokens + (now - s.ts) * limit)

unfoldable pub evaluate_token_bucket : Option BucketState → ℕ → ℕ → ℕ → TokenDecision
evaluate_token_bucket state limit window now =
    let tokens = refilled state limit window now in
    if ltb tokens window
    then record {
      allowed = false;
      retry_after_ms = ceil_div (window - tokens) limit;
      tokens = tokens;
      ts = now;
    }
    else record { allowed = true; retry_after_ms = 0; tokens = tokens - window; ts = now }

-- What the script writes: `HMSET tokens ts` and `PEXPIRE win`, and its reply.
pub record BucketReply : Type 0 where
  pub allowed : ℕ
  pub retry_after : ℕ
  pub stored : BucketState
  pub ttl : ℕ

-- `RATE_LIMIT_LUA`, from the two fields of the hash as `HMGET` returns them.
unfoldable pub rate_limit_lua : Option ℕ → Option ℕ → ℕ → ℕ → ℕ → BucketReply
rate_limit_lua tokens₀ ts₀ limit win now =
    let missing = not (is_some tokens₀) || not (is_some ts₀) in
    let start = if missing then limit * win else or_else tokens₀ 0 in
    let ts = if missing then now else or_else ts₀ 0 in
    let tokens = min (limit * win) (start + (now - ts) * limit) in
    if ltb tokens win
    then record {
      allowed = 0;
      retry_after = ceil_div (win - tokens) limit;
      stored = record { tokens = tokens; ts = now };
      ttl = win;
    }
    else record {
      allowed = 1;
      retry_after = 0;
      stored = record { tokens = tokens - win; ts = now };
      ttl = win;
    }

-- The two fields as one state, as `evaluateTokenBucket` takes it.
abbrev pub bucket_of : Option ℕ → Option ℕ → Option BucketState
bucket_of (some t) (some s) = some (record { tokens = t; ts = s })
bucket_of _ _ = none

-- The limit that `checkRateLimit` passes to the script: the operator's override as `parseInt` reads
-- it (`none` where there is no override, `some 0` where it is no number), or the domain's default.
unfoldable pub limit_for : Option ℕ → Bool → String → ℕ
unfolding default_limit
limit_for (some zero) is_shopify domain = default_rate
limit_for (some (suc n)) is_shopify domain = suc n
limit_for none is_shopify domain = if is_shopify then shopify_limit else default_limit domain

pub record RateLimitResult : Type 0 where
  pub allowed : Bool
  pub retry_after_ms : ℕ

-- `checkRateLimit`: the result, and what the script leaves in Redis.
unfoldable pub check_rate_limit :
    Option ℕ → Option ℕ → Option ℕ → Bool → String → ℕ → RateLimitResult × BucketReply
unfolding limit_for rate_limit_lua
check_rate_limit override tokens ts is_shopify domain now =
    let res = rate_limit_lua tokens ts (limit_for override is_shopify domain) window_ms now in
    (record { allowed = res.allowed == 1; retry_after_ms = res.retry_after }, res)

-- The script decides as `evaluateTokenBucket` does, on every state of the hash, and stores the
-- state that the function returns.
pub rate_limit_lua-eq-evaluate :
    (tokens ts : Option ℕ) (limit win now : ℕ)
    → let d = evaluate_token_bucket (bucket_of tokens ts) limit win now in
      let r = rate_limit_lua tokens ts limit win now in
      ((r.allowed == 1) ≡ d.allowed)
      × (r.retry_after ≡ d.retry_after_ms)
      × (r.stored ≡ record { tokens = d.tokens; ts = d.ts })
unfolding evaluate_token_bucket refilled rate_limit_lua
rate_limit_lua-eq-evaluate none none limit win now = ground arith
rate_limit_lua-eq-evaluate none (some s) limit win now = ground arith
rate_limit_lua-eq-evaluate (some t) none limit win now = ground arith
rate_limit_lua-eq-evaluate (some t) (some s) limit win now = ground arith
