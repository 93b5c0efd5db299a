-- ===== src/Rate/Spacing.antt =====
-- workers/rate-limiter.ts, lines 104-171: the robots.txt `Crawl-delay`. Times are natural numbers.
use new_specter.Rate.Bucket.{RateLimitResult}
use new_specter.Common.{
  ℕ, zero, suc, ◌+◌, ◌-◌, ◌*◌, ◌≤◌, ◌<◌, ◌≡◌, ◌↔◌, inl, inr, true, false, ◌||◌, Option, none, some,
  List, [], ◌∷◌, arith, leb, ◌==◌, if◌then◌else◌, leb→le, Bool-cases,
}

unfoldable pub decide_crawl_delay : Option ℕ → ℕ → ℕ → RateLimitResult
decide_crawl_delay none delay now = record { allowed = true; retry_after_ms = 0 }
decide_crawl_delay (some last) delay now =
    if delay == 0 || leb (last + delay) now
    then record { allowed = true; retry_after_ms = 0 }
    else record { allowed = false; retry_after_ms = last + delay - now }

-- The script's reply, and its `SET` with `PEXPIRE` where it makes them.
pub record CrawlReply : Type 0 where
  pub allowed : ℕ
  pub retry_after : ℕ
  pub written : Option (ℕ × ℕ)

-- `CRAWL_DELAY_LUA`.
unfoldable pub crawl_delay_lua : Option ℕ → ℕ → ℕ → CrawlReply
crawl_delay_lua none delay now = record {
  allowed = 1;
  retry_after = 0;
  written = some (now, delay * 2);
}
crawl_delay_lua (some last) delay now =
    if delay == 0 || leb (last + delay) now
    then record { allowed = 1; retry_after = 0; written = some (now, delay * 2) }
    else record { allowed = 0; retry_after = last + delay - now; written = none }

-- `enforceCrawlDelay`: the configured delay in milliseconds, rounded up (`none` where there is none
-- or it is no positive number), and the time of the last allowed request.
unfoldable pub enforce_crawl_delay : Option ℕ → Option ℕ → ℕ → RateLimitResult × Option ℕ
unfolding crawl_delay_lua
enforce_crawl_delay none last now = (record { allowed = true; retry_after_ms = 0 }, last)
enforce_crawl_delay (some zero) last now = (record { allowed = true; retry_after_ms = 0 }, last)
enforce_crawl_delay (some (suc d)) last now =
    let res = crawl_delay_lua last (suc d) now in
    (
      record { allowed = res.allowed == 1; retry_after_ms = res.retry_after },
      elim res.written [ none ↦ last | some (at, ttl) ↦ some at ],
    )

-- The script decides as `decideCrawlDelay` does.
pub crawl_delay_lua-eq-decide :
    (last : Option ℕ) (delay now : ℕ)
    → let r = crawl_delay_lua last delay now in
      let d = decide_crawl_delay last delay now in
      ((r.allowed == 1) ≡ d.allowed) × (r.retry_after ≡ d.retry_after_ms)
unfolding crawl_delay_lua decide_crawl_delay
crawl_delay_lua-eq-decide none delay now = ground arith
crawl_delay_lua-eq-decide (some last) delay now = ground arith

-- The times of the requests that are let through.
unfoldable pub let_through : Option ℕ → Option ℕ → List ℕ → List ℕ
let_through cfg last [] = []
let_through cfg last (t ∷ ts) =
    let (res, last') = enforce_crawl_delay cfg last t in
    let rest = let_through cfg last' ts in if res.allowed then t ∷ rest else rest

-- Each time is at least `delay` after the one before it.
abbrev pub IsSpaced : ℕ → Option ℕ → List ℕ → Type 0
IsSpaced delay last [] = Unit {0}
IsSpaced delay none (t ∷ ts) = IsSpaced delay (some t) ts
IsSpaced delay (some s) (t ∷ ts) = (s + delay ≤ t) × IsSpaced delay (some t) ts

enforce_far :
    (d s t : ℕ)
    → s + suc d ≤ t
    → enforce_crawl_delay (some (suc d)) (some s) t
      ≡ (record { allowed = true; retry_after_ms = 0 }, some t)
unfolding enforce_crawl_delay
enforce_far d s t far = ground arith

enforce_near :
    (d s t : ℕ)
    → t < s + suc d
    → enforce_crawl_delay (some (suc d)) (some s) t
      ≡ (record { allowed = false; retry_after_ms = s + suc d - t }, some s)
unfolding enforce_crawl_delay
enforce_near d s t near = ground arith

enforce_first :
    (d t : ℕ)
    → enforce_crawl_delay (some (suc d)) none t
      ≡ (record { allowed = true; retry_after_ms = 0 }, some t)
unfolding enforce_crawl_delay
enforce_first d t = ground arith

-- With a crawl delay configured, no two requests of a domain are let through closer together than
-- the delay, in whatever order and at whatever times they are asked for.
pub let_through-IsSpaced :
    (delay : ℕ) (last : Option ℕ) (times : List ℕ)
    → 0 < delay
    → IsSpaced delay last (let_through (some delay) last times)
unfolding let_through
let_through-IsSpaced zero last times pos = elim pos [ ]
let_through-IsSpaced (suc d) last [] pos = tt
let_through-IsSpaced (suc d) none (t ∷ ts) pos =
    rw (enforce_first d t) (let_through-IsSpaced (suc d) (some t) ts pos)
let_through-IsSpaced (suc d) (some s) (t ∷ ts) pos =
    let later = let_through-IsSpaced (suc d) (some t) ts pos in
    let same = let_through-IsSpaced (suc d) (some s) ts pos in
    elim (Bool-cases (leb (s + suc d) t)) [
      | inl far ↦ rw (enforce_far d s t (leb→le _ _ far)) (leb→le _ _ far, later)
      | inr near ↦ rw (enforce_near d s t (ground arith)) same
    ]

-- A refused request learns exactly when the spacing is over.
pub crawl_retry_exact :
    (last : Option ℕ) (delay now later : ℕ)
    → let d = decide_crawl_delay last delay now in
      d.allowed ≡ false
      → ((decide_crawl_delay last delay later).allowed ≡ true) ↔ (now + d.retry_after_ms ≤ later)
unfolding decide_crawl_delay
crawl_retry_exact none delay now later e = cc
crawl_retry_exact (some last) delay now later e = ground arith

-- Redis may forget the last request after twice the delay: the decision is the same.
pub crawl_expiry_harmless :
    (last delay now : ℕ)
    → last + delay * 2 ≤ now
    → decide_crawl_delay (some last) delay now ≡ decide_crawl_delay none delay now
unfolding decide_crawl_delay
crawl_expiry_harmless last delay now h = ground arith
