-- ===== src/Scrape/Failures.antt =====
-- workers/http.ts, lines 17 and 232-253: the counter of failures after which a domain is rendered
-- in a browser.
use new_specter.Redis.{Redis, http_fail, integer}
use new_specter.Schedule.Plans.{priority_of}
use new_specter.Schedule.Streak.{cache_domain_class}
use new_specter.Schedule.Dispatch.{ScrapeJob}
use new_specter.Common.{
  ℕ, zero, suc, ◌+◌, ◌/◌, ◌%◌, ◌<◌, String, ◌≡◌, refl, sym, ap, subst, ◌∙◌, ◌⊎◌, inl, inr, true,
  false, none, some, List, ◌∷◌, arith, leb, ◌==◌, if◌then◌else◌, Bool-cases, length,
}

abbrev pub http_fail_limit : ℕ
http_fail_limit = 3

module _ (𝓡 : Redis) where
  open 𝓡 use {
    State, get, set, incr, del, get-set, get-set_ne, incr-absent, incr-integer, get-incr_ne,
    get-del, get-del_ne,
  }

  -- Redis and the jobs that were added to the Playwright queue, each with its priority.
  pub record Failing : Type 0 where
    pub redis : State
    pub rendered : List (ScrapeJob × ℕ)

  unfoldable pub increment_http_fail_counter : Failing → String → ScrapeJob → ℕ → Failing
  increment_http_fail_counter w domain job_data priority =
      let key = http_fail domain in
      let (count, s₁) = incr w.redis key in
      if leb http_fail_limit count
      then record {
        redis = del (cache_domain_class 𝓡 s₁ domain "js_required") key;
        rendered = (job_data, priority) ∷ w.rendered;
      }
      else record w { redis = s₁ }

  unfoldable pub fail_times : Failing → ScrapeJob → ℕ → Failing
  unfolding increment_http_fail_counter
  fail_times w job zero = w
  fail_times w job (suc k) =
      fail_times (increment_http_fail_counter w job.domain job (priority_of job.plan)) job k

  -- The counter stands at `c`.
  abbrev pub Counts : State → String → ℕ → Type 0
  Counts s domain c =
      ((get s (http_fail domain) ≡ none) × (c ≡ 0)) ⊎ (get s (http_fail domain) ≡ some (integer c))

  counted :
      (s : State) (domain : String) (c : ℕ)
      → Counts s domain c
      → let (n, s') = incr s (http_fail domain) in
        (n ≡ c + 1) × (get s' (http_fail domain) ≡ some (integer (c + 1)))
  counted s domain c (inl (e, z)) =
      let r = incr-absent s (http_fail domain) e in
      let one : c + 1 ≡ 1 = omega arith in
      (r.0 ∙ sym one, r.1 ∙ ap (λ x. some (integer x)) (sym one))
  counted s domain c (inr e) = incr-integer s (http_fail domain) c e

  one_failure :
      (w : Failing) (job : ScrapeJob) (priority c : ℕ)
      → Counts w.redis job.domain c
      → c < 3
      → let w' = increment_http_fail_counter w job.domain job priority in
        Counts w'.redis job.domain (if c == 2 then 0 else c + 1)
        × (length w'.rendered ≡ (if c == 2 then length w.rendered + 1 else length w.rendered))
  unfolding increment_http_fail_counter
  one_failure w job priority c h l =
      let (e, f) = counted w.redis job.domain c h in
      elim (Bool-cases (c == 2)) [
        | inl two ↦
            let reached : leb 3 (incr w.redis (http_fail job.domain)).0 ≡ true = ground arith in
            rw reached (
              rw two (
                inl (
                  get-del
                      (cache_domain_class 𝓡 (incr w.redis (http_fail job.domain)).1 job.domain
                        "js_required")
                      (http_fail job.domain),
                  refl,
                ),
                omega arith,
              ))
        | inr less ↦
            let below : leb 3 (incr w.redis (http_fail job.domain)).0 ≡ false = ground arith in
            rw below (rw less (inr f, refl))
      ]

  -- Of `k` failures in a row of a domain whose counter stands at `c`, every third reclassifies it:
  -- that many jobs are added to the browser's queue, and the counter is left at the remainder.
  pub fail_times-rendered :
      (w : Failing) (job : ScrapeJob) (c k : ℕ)
      → Counts w.redis job.domain c
      → c < 3
      → let w' = fail_times w job k in
        (length w'.rendered ≡ length w.rendered + (c + k) / 3)
        × Counts w'.redis job.domain ((c + k) % 3)
  unfolding fail_times
  fail_times-rendered w job c zero h l =
      let same : c ≡ (c + 0) % 3 = omega arith in
      (omega arith, subst (Counts w.redis job.domain) same h)
  fail_times-rendered w job c (suc k) h l =
      let w₁ = increment_http_fail_counter w job.domain job (priority_of job.plan) in
      let next = if c == 2 then 0 else c + 1 in
      let (counts, added) = one_failure w job (priority_of job.plan) c h l in
      let later = fail_times-rendered w₁ job next k counts (ground arith) in
      let same : (next + k) % 3 ≡ (c + suc k) % 3 = ground arith in
      (ground arith, subst (Counts (fail_times w₁ job k).redis job.domain) same later.1)
