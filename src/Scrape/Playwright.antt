-- ===== src/Scrape/Playwright.antt =====
-- workers/playwright.ts, lines 326-462: one run of the Playwright worker. The commands of the run
-- follow each other at one time `now`; what the browser meets is an argument, and of the browser
-- only the number of open contexts is kept.
pub mod Renders
use new_specter.Redis.{Redis, Key, last_price}
use new_specter.Proxy.Health.{ProxyHealthStore}
use new_specter.Proxy.Manager.{ProxyManager, residential, report_result}
use new_specter.Rate.Bucket.{RateLimitResult}
use new_specter.Rate.Spacing.{enforce_crawl_delay}
use new_specter.Schedule.Streak.{cache_last_price, record_price_observation}
use new_specter.Schedule.Dispatch.{ScrapeJob, union_batched_tracking_ids}
use new_specter.Scrape.Validate.{
  ParseResult, ValidationError, validate_parse_result, normalise_currency,
}
use new_specter.Scrape.Captcha.{
  CaptchaSolveJob, CaptchaOutcome, clear, unsolvable, offloaded, CaptchaWorld, handle_captcha,
}
use new_specter.Scrape.Http.{Snapshot, ValidationReport, price_of, cached_price}
use new_specter.Common.{
  ℕ, zero, suc, ◌+◌, ◌-◌, ◌*◌, ◌/◌, ◌%◌, ◌^◌, ◌≤◌, ◌<◌, min, max, String, ◌≡◌, refl, sym, ap, subst,
  ◌∙◌, fun_ext, ◌≢◌, ◌↔◌, ◌⊎◌, inl, inr, Bool, true, false, not, ◌&&◌, ◌||◌, Option, none, some,
  List, [], ◌∷◌, ◌++◌, map, arith, ℕ_discrete, ltb, leb, ◌==◌, if◌then◌else◌, ltb→lt, lt→ltb,
  leb→le, le→leb, ==_iff, Bool-cases, Option-cases, is_some, or_else, length, get_or, any_of,
  all_of, filter_by, length-append, any_of-append, get_or-any_of, any_of-false, all_of-get_or,
  all_of-filter_by, length-filter_by-le, str_eq, str_eq_iff, str_eq_refl, str_eq_ne, includes,
  includes-any_of, codes, contains, matches_ci,
}

-- What the browser meets: whether the navigation succeeds, the page's URL and HTML, whether an
-- injected token clears it, what the parser reads, the length of the rendered document, and whether
-- specter-api accepts the snapshot.
pub record Visit : Type 0 where
  pub navigates : Bool
  pub page_url : String
  pub content : String
  pub clears : Bool
  pub parsed : ParseResult
  pub rendered_length : ℕ
  pub accepted : Bool

pub data RenderOutcome : Type 0 where
  crawl_delayed : ℕ → RenderOutcome
  navigation_failed : RenderOutcome
  captcha_offloaded : RenderOutcome
  not_parsed : RenderOutcome
  not_valid : List ValidationError → RenderOutcome
  write_failed : RenderOutcome
  written : Bool → RenderOutcome

module _ (𝓡 : Redis) (𝓢 : ProxyHealthStore) (numbered : ℕ → String) (unit eclipse_ms : ℕ) where
  open 𝓡 use {State, get}

  pub record RenderWorld : Type 0 where
    pub redis : State
    pub solves : List CaptchaSolveJob
    pub crawl_config : String → Option ℕ
    pub last_request : String → Option ℕ
    pub proxies : Option (ProxyManager 𝓢.State)
    pub active_proxy : Option String
    pub open_contexts : ℕ
    pub reports : List ValidationReport
    pub posts : List Snapshot
    pub delayed_to : List ℕ

  unfoldable pub report_active : RenderWorld → ℕ → ℕ → RenderWorld
  report_active w status now = elim w.proxies [
    | none ↦ w
    | some m ↦ elim w.active_proxy [
      | none ↦ w
      | some url ↦ record w { proxies = some (report_result 𝓢 m url status now) }
    ]
  ]

  abbrev pub report_render : RenderWorld → ScrapeJob → List ValidationError → RenderWorld
  report_render w job errors = record w {
    reports =
        record {
          domain = job.domain;
          url = job.url;
          competitor_tracking_ids = job.competitor_tracking_ids;
          errors = errors;
        }
        ∷ w.reports;
  }

  unfoldable pub render_snapshot : ScrapeJob → String → Option String → Visit → Bool → Snapshot
  render_snapshot job id proxy v needs_review = record {
    url = job.url;
    domain = job.domain;
    url_path = job.url_path;
    competitor_tracking_ids = job.competitor_tracking_ids;
    price = price_of v.parsed.price;
    currency = normalise_currency v.parsed.currency;
    in_stock = v.parsed.in_stock;
    title = v.parsed.title;
    needs_review = needs_review;
    job_id = id;
    proxy_tier = if is_some proxy then some residential else none;
    resp_bytes = v.rendered_length;
  }

  -- Lines 410-450.
  unfoldable pub write_render :
      RenderWorld → ScrapeJob → String → Visit → Bool → RenderOutcome × RenderWorld
  unfolding render_snapshot cache_last_price record_price_observation
  write_render w job id v needs_review =
      let w₁ = record w {
        posts = render_snapshot job id w.active_proxy v needs_review ∷ w.posts;
      } in
      if not v.accepted
      then (write_failed, w₁)
      else let price = price_of v.parsed.price in
        let s = cache_last_price 𝓡 w.redis job.domain job.url_path price job.plan in
        let (streak, s₁) =
          record_price_observation 𝓡 s job.domain job.url_path price
            (or_else v.parsed.in_stock false) job.plan eclipse_ms in
        (written needs_review, record w₁ { redis = s₁ })

  -- Lines 381-408.
  unfoldable pub process_render :
      RenderWorld → ScrapeJob → String → Visit → RenderOutcome × RenderWorld
  unfolding write_render validate_parse_result
  process_render w job id v =
      if not (is_some v.parsed.price)
      then (not_parsed, report_render w job [])
      else let previous_price = cached_price (get w.redis (last_price job.domain job.url_path)) in
        let validation = validate_parse_result unit v.parsed previous_price in
        if not validation.valid
        then (not_valid validation.errors, report_render w job validation.errors)
        else write_render w job id v validation.needs_review

  -- Lines 367-379, on what `handleCaptcha` answered.
  unfoldable pub after_captcha :
      RenderWorld → ScrapeJob → String → Visit → CaptchaOutcome → ℕ → RenderOutcome × RenderWorld
  unfolding process_render report_active
  after_captcha w job id v (offloaded retry_after_ms type) now =
      let w₁ = report_active w 0 now in
      (captcha_offloaded, record w₁ { delayed_to = (now + retry_after_ms) ∷ w₁.delayed_to })
  after_captcha w job id v clear now = process_render w job id v
  after_captcha w job id v unsolvable now = process_render w job id v

  -- The body of `try`, lines 353-450.
  unfoldable pub render : RenderWorld → ScrapeJob → String → Visit → ℕ → RenderOutcome × RenderWorld
  unfolding after_captcha report_active handle_captcha
  render w job id v now =
      if not v.navigates
      then (navigation_failed, report_active w 0 now)
      else let w₁ = report_active w 200 now in
        let met : CaptchaWorld 𝓡 = record { redis = w₁.redis; solves = w₁.solves } in
        let (outcome, met₁) = handle_captcha 𝓡 met job.domain v.page_url v.content v.clears in
        after_captcha (record w₁ { redis = met₁.redis; solves = met₁.solves }) job id v outcome now

  -- The worker on the job `id`; `finally` closes the context that it opened.
  unfoldable pub playwright_worker :
      RenderWorld → ScrapeJob → String → Visit → ℕ → RenderOutcome × RenderWorld
  unfolding render enforce_crawl_delay union_batched_tracking_ids
  playwright_worker w job id v now =
      let ids = union_batched_tracking_ids 𝓡 numbered w.redis id job.competitor_tracking_ids in
      let batched = record job { competitor_tracking_ids = ids } in
      let (cd, last) =
        enforce_crawl_delay (w.crawl_config job.domain) (w.last_request job.domain) now in
      let w₁ = record w {
        last_request = λ d. if str_eq d job.domain then last else w.last_request d;
      } in
      if not cd.allowed
      then (
        crawl_delayed cd.retry_after_ms,
        record w₁ { delayed_to = (now + cd.retry_after_ms) ∷ w₁.delayed_to },
      )
      else let w₂ = record w₁ { open_contexts = w₁.open_contexts + 1 } in
        let (outcome, w₃) = render w₂ batched id v now in
        (outcome, record w₃ { open_contexts = w₃.open_contexts - 1 })
