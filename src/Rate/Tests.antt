-- ===== src/Rate/Tests.antt =====
-- The rate limiter at concrete inputs: six requests a minute, as for Amazon.
use new_specter.Rate.Bucket.{
  BucketState, evaluate_token_bucket, refilled, default_limit, rate_limit_lua,
  rate_limit_lua-eq-evaluate,
}
use new_specter.Rate.Admission.{admitted, admitted-bounded, retry_after_exact}
use new_specter.Rate.Spacing.{enforce_crawl_delay, let_through, IsSpaced, let_through-IsSpaced}
use new_specter.Common.{◌+◌, ◌-◌, ◌*◌, ◌≤◌, ◌≡◌, refl, ◌↔◌, true, none, some, [], ◌∷◌, arith, ◌==◌}

limits :
    (default_limit "www.Amazon.in" ≡ 6)
    × (default_limit "shop.myshopify.com" ≡ 30)
    × (default_limit "x.com" ≡ 20)
unfolding default_limit
limits = (refl, refl, refl)

-- A full bucket admits six requests at once, and twelve in the minute that follows.
burst : admitted none 6 60_000 (0 ∷ 0 ∷ 0 ∷ 0 ∷ 0 ∷ 0 ∷ 0 ∷ []) ≡ 6
unfolding admitted evaluate_token_bucket refilled
burst = refl

steady :
    admitted none 6 60_000
      (0 ∷ 0 ∷ 0 ∷ 0 ∷ 0 ∷ 0 ∷ 10_000 ∷ 20_000 ∷ 30_000 ∷ 40_000 ∷ 50_000 ∷ 60_000 ∷ [])
    ≡ 12
unfolding admitted evaluate_token_bucket refilled
steady = refl

rate_limit_lua-eq-evaluate_example :
    let d = evaluate_token_bucket (some (record { tokens = 30_000; ts = 10 })) 6 60_000 20 in
    let r = rate_limit_lua (some 30_000) (some 10) 6 60_000 20 in
    ((r.allowed == 1) ≡ d.allowed)
    × (r.retry_after ≡ d.retry_after_ms)
    × (r.stored ≡ record { tokens = d.tokens; ts = d.ts })
rate_limit_lua-eq-evaluate_example = rate_limit_lua-eq-evaluate (some 30_000) (some 10) 6 60_000 20

admitted-bounded_example :
    admitted none 6 60_000 (0 ∷ 5 ∷ 5 ∷ 20_000 ∷ []) * 60_000 ≤ 6 * 60_000 + (20_000 - 0) * 6
admitted-bounded_example = admitted-bounded 6 60_000 0 20_000 (5 ∷ 5 ∷ 20_000 ∷ []) (omega arith)

abbrev drained : BucketState
drained = record { tokens = 30_000; ts = 10 }

retry_after_exact_example :
    ((evaluate_token_bucket (some (record { tokens = 30_060; ts = 20 })) 6 60_000 5010).allowed
      ≡ true)
    ↔ (20 + 4990 ≤ 5010)
unfolding evaluate_token_bucket refilled
retry_after_exact_example =
    retry_after_exact (some drained) 6 60_000 20 5010 (omega arith) refl (omega arith)

let_through-IsSpaced_example :
    IsSpaced 1000 none (let_through (some 1000) none (0 ∷ 999 ∷ 1000 ∷ 1500 ∷ 2400 ∷ []))
let_through-IsSpaced_example =
    let_through-IsSpaced 1000 none (0 ∷ 999 ∷ 1000 ∷ 1500 ∷ 2400 ∷ []) (omega arith)

spaced_run : let_through (some 1000) none (0 ∷ 999 ∷ 1000 ∷ 1500 ∷ 2400 ∷ []) ≡ 0 ∷ 1000 ∷ 2400 ∷ []
unfolding let_through enforce_crawl_delay
spaced_run = refl
