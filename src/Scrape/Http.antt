-- ===== src/Scrape/Http.antt =====
-- workers/http.ts, lines 21-230, with proxy/runtime.ts, lines 38-51: one run of the HTTP worker on
-- a job. The commands of the run follow each other at one time `now`, with no other worker between
-- them. What the network answers is an argument, with what the parsers of domains/ read in the page.
pub mod Egress
pub mod Writes
use new_specter.Redis.{Redis, Key, http_fail, last_price, Value, text, integer, price_text}
use new_specter.Proxy.Health.{ProxyHealthStore}
use new_specter.Proxy.Manager.{ProxyManager, Tier, datacenter, next, report_result}
use new_specter.Rate.Bucket.{RateLimitResult, BucketState, BucketReply, check_rate_limit}
use new_specter.Rate.Spacing.{enforce_crawl_delay}
use new_specter.Schedule.Plans.{priority_of}
use new_specter.Schedule.Streak.{cache_last_price, record_price_observation}
use new_specter.Schedule.Dispatch.{ScrapeJob, union_batched_tracking_ids}
use new_specter.Scrape.Validate.{
  Number, nan, infinity, below_zero, amount, ParseResult, ValidationError, ValidationResult,
  validate_parse_result, normalise_currency, is_space,
}
use new_specter.Scrape.Failures.{Failing, increment_http_fail_counter}
use new_specter.Common.{is_prefix_of, lower_code}
use new_specter.Common.{
  ℕ, zero, suc, ◌+◌, ◌-◌, ◌*◌, ◌/◌, ◌%◌, ◌^◌, ◌≤◌, ◌<◌, min, max, String, ◌≡◌, refl, sym, ap, subst,
  ◌∙◌, fun_ext, ◌≢◌, ◌↔◌, ◌⊎◌, inl, inr, Bool, true, false, not, ◌&&◌, ◌||◌, Option, none, some,
  List, [], ◌∷◌, ◌++◌, map, arith, ℕ_discrete, ltb, leb, ◌==◌, if◌then◌else◌, ltb→lt, lt→ltb,
  leb→le, le→leb, ==_iff, Bool-cases, Option-cases, is_some, or_else, length, get_or, any_of,
  all_of, filter_by, length-append, any_of-append, get_or-any_of, any_of-false, all_of-get_or,
  all_of-filter_by, length-filter_by-le, str_eq, str_eq_iff, str_eq_refl, str_eq_ne, includes,
  includes-any_of, codes, contains, matches_ci,
}

abbrev pub is_digit : ℕ → Bool
is_digit c = leb b'0' c && leb c b'9'

-- `(\d+)` at the start of a text, read as a decimal number.
abbrev pub read_digits : List ℕ → Option ℕ → Option ℕ
read_digits [] n = n
read_digits (c ∷ cs) n =
    if is_digit c then read_digits cs (some (or_else n 0 * 10 + (c - b'0'))) else n

abbrev pub after_spaces : List ℕ → Option ℕ
after_spaces [] = none
after_spaces (c ∷ cs) = if is_space c then after_spaces cs else read_digits (c ∷ cs) none

abbrev pub drop_codes : ℕ → List ℕ → List ℕ
drop_codes zero cs = cs
drop_codes (suc n) [] = []
drop_codes (suc n) (c ∷ cs) = drop_codes n cs

-- `html.match(/Retry-After:\s*(\d+)/i)?.[1]`: the first place at which the pattern matches.
unfoldable pub retry_after_in : List ℕ → Option ℕ
retry_after_in [] = none
retry_after_in (c ∷ cs) =
    let here =
      if is_prefix_of (codes "retry-after:") (map lower_code (c ∷ cs))
      then after_spaces (drop_codes 12 (c ∷ cs))
      else none in
    let later = retry_after_in cs in if is_some here then here else later

-- The body of a price snapshot, as `buildSnapshotBody` makes it, with the id of the job in place of
-- the uuid that is derived from it.
pub record Snapshot : Type 0 where
  pub url : String
  pub domain : String
  pub url_path : String
  pub competitor_tracking_ids : List String
  pub price : ℕ
  pub currency : List ℕ
  pub in_stock : Option Bool
  pub title : Option String
  pub needs_review : Bool
  pub job_id : String
  pub proxy_tier : Option Tier
  pub resp_bytes : ℕ

-- A record for the validation-errors queue; without errors its reason is `price_null`.
pub record ValidationReport : Type 0 where
  pub domain : String
  pub url : String
  pub competitor_tracking_ids : List String
  pub errors : List ValidationError

pub data Outcome : Type 0 where
  rate_limited : ℕ → Outcome
  crawl_delayed : ℕ → Outcome
  proxy_exhausted : Outcome
  network_failed : Outcome
  http_429 : ℕ → Outcome
  not_parsed : Outcome
  not_valid : List ValidationError → Outcome
  write_failed : Outcome
  written : Bool → Outcome

-- The answer to the GET: its status, its body, whether it carries a Shopify header, what the
-- parsers read in it, and whether specter-api accepts the snapshot.
pub record Page : Type 0 where
  pub status : ℕ
  pub html : String
  pub shopify_header : Bool
  pub resolved : Option ParseResult
  pub accepted : Bool

-- Lines 92 and 123-126.
unfoldable pub wait_after : Page → ℕ
unfolding retry_after_in
wait_after page = elim (retry_after_in (codes page.html)) [
  | some seconds ↦ seconds * 1_000
  | none ↦ 60_000
]

abbrev pub no_result : ParseResult
no_result = record { price = none; in_stock = some false; currency = "USD"; title = none }

abbrev pub price_of : Option Number → ℕ
price_of (some (amount n)) = n
price_of _ = 0

-- `parseFloat` of the cached price.
abbrev pub cached_price : Option Value → Option Number
cached_price none = none
cached_price (some (price_text n)) = some (amount n)
cached_price (some (integer n)) = some nan
cached_price (some v) = some nan

module _ (𝓡 : Redis) (𝓢 : ProxyHealthStore) (numbered : ℕ → String) (unit eclipse_ms requeue_ms : ℕ)
    (allow_direct : Bool) where
  open 𝓡 use {State, get, del}

  pub record HttpWorld : Type 0 where
    pub redis : State
    pub rendered : List (ScrapeJob × ℕ)
    pub buckets : String → Option BucketState
    pub rate_override : Option ℕ
    pub crawl_config : String → Option ℕ
    pub last_request : String → Option ℕ
    pub proxies : Option (ProxyManager 𝓢.State)
    pub fetches : List (Option String)
    pub reports : List ValidationReport
    pub posts : List Snapshot
    pub delayed_to : List ℕ

  abbrev pub delay : HttpWorld → ℕ → HttpWorld
  delay w at = record w { delayed_to = at ∷ w.delayed_to }

  unfoldable pub check_rate : HttpWorld → String → Bool → ℕ → RateLimitResult × HttpWorld
  unfolding check_rate_limit
  check_rate w domain is_shopify now =
      let tokens : Option ℕ = elim (w.buckets domain) [ some b ↦ some b.tokens | none ↦ none ] in
      let ts : Option ℕ = elim (w.buckets domain) [ some b ↦ some b.ts | none ↦ none ] in
      let (res, reply) = check_rate_limit w.rate_override tokens ts is_shopify domain now in
      (res, record w { buckets = λ d. if str_eq d domain then some reply.stored else w.buckets d })

  unfoldable pub check_crawl : HttpWorld → String → ℕ → RateLimitResult × HttpWorld
  unfolding enforce_crawl_delay
  check_crawl w domain now =
      let (res, last) = enforce_crawl_delay (w.crawl_config domain) (w.last_request domain) now in
      (res, record w { last_request = λ d. if str_eq d domain then last else w.last_request d })

  -- The proxy to use: `none` where all are cooling and a direct fetch is not allowed, and `some
  -- none` for a direct fetch.
  unfoldable pub choose_proxy : HttpWorld → String → ℕ → Option (Option String) × HttpWorld
  choose_proxy w domain now = elim w.proxies [
    | none ↦ (some none, w)
    | some m ↦
        let (picked, m₁) = next 𝓢 m datacenter (some domain) now in
        let w₁ = record w { proxies = some m₁ } in
        elim picked [
          | some url ↦ (some (some url), w₁)
          | none ↦ (if allow_direct then some none else none, w₁)
        ]
  ]

  unfoldable pub report_proxy : HttpWorld → Option String → ℕ → ℕ → HttpWorld
  report_proxy w proxy status now = elim w.proxies [
    | none ↦ w
    | some m ↦ elim proxy [
      | none ↦ w
      | some url ↦ record w { proxies = some (report_result 𝓢 m url status now) }
    ]
  ]

  unfoldable pub count_failure : HttpWorld → ScrapeJob → HttpWorld
  unfolding increment_http_fail_counter priority_of
  count_failure w job =
      let failing : Failing 𝓡 = record { redis = w.redis; rendered = w.rendered } in
      let counted = increment_http_fail_counter 𝓡 failing job.domain job (priority_of job.plan) in
      record w { redis = counted.redis; rendered = counted.rendered }

  abbrev pub report_invalid : HttpWorld → ScrapeJob → List ValidationError → HttpWorld
  report_invalid w job errors = record w {
    reports =
        record {
          domain = job.domain;
          url = job.url;
          competitor_tracking_ids = job.competitor_tracking_ids;
          errors = errors;
        }
        ∷ w.reports;
  }

  unfoldable pub snapshot_of :
      ScrapeJob → String → Option String → ParseResult → Bool → ℕ → Snapshot
  snapshot_of job id proxy parsed needs_review resp_bytes = record {
    url = job.url;
    domain = job.domain;
    url_path = job.url_path;
    competitor_tracking_ids = job.competitor_tracking_ids;
    price = price_of parsed.price;
    currency = normalise_currency parsed.currency;
    in_stock = parsed.in_stock;
    title = parsed.title;
    needs_review = needs_review;
    job_id = id;
    proxy_tier = if is_some proxy then some datacenter else none;
    resp_bytes = resp_bytes;
  }

  -- Lines 185-223: the snapshot is posted, then the price is cached and the streak counted.
  unfoldable pub write_snapshot :
      HttpWorld
      → ScrapeJob
      → String
      → Option String
      → ParseResult
      → Bool
      → Page
      → Outcome × HttpWorld
  unfolding snapshot_of cache_last_price record_price_observation
  write_snapshot w job id proxy parsed needs_review page =
      let bytes = length (codes page.html) in
      let body = snapshot_of job id proxy parsed needs_review bytes in
      let w₁ = record w { posts = body ∷ w.posts } in
      if not page.accepted
      then (write_failed, w₁)
      else let price = price_of parsed.price in
        let s = cache_last_price 𝓡 w.redis job.domain job.url_path price job.plan in
        let (streak, s₁) =
          record_price_observation 𝓡 s job.domain job.url_path price (or_else parsed.in_stock false)
            job.plan eclipse_ms in
        (written needs_review, record w₁ { redis = s₁ })

  -- Lines 144-180.
  unfoldable pub process_page :
      HttpWorld → ScrapeJob → String → Option String → Page → Outcome × HttpWorld
  unfolding count_failure write_snapshot validate_parse_result
  process_page w job id proxy page =
      let parsed = or_else page.resolved no_result in
      if not (is_some parsed.price)
      then (not_parsed, report_invalid (count_failure w job) job [])
      else let w₁ = record w { redis = del w.redis (http_fail job.domain) } in
        let previous_price = cached_price (get w₁.redis (last_price job.domain job.url_path)) in
        let validation = validate_parse_result unit parsed previous_price in
        if not validation.valid
        then (not_valid validation.errors, report_invalid w₁ job validation.errors)
        else write_snapshot w₁ job id proxy parsed validation.needs_review page

  -- Lines 95-129: `none` is a network error.
  unfoldable pub fetch_page :
      HttpWorld → ScrapeJob → String → Option String → Bool → Option Page → ℕ → Outcome × HttpWorld
  unfolding process_page report_proxy check_rate count_failure wait_after
  fetch_page w job id proxy is_shopify none now =
      (network_failed, count_failure (report_proxy w proxy 0 now) job)
  fetch_page w job id proxy is_shopify (some page) now =
      let w₁ = report_proxy w proxy page.status now in
      let recheck = page.shopify_header && not is_shopify in
      let (rl, w₂) = check_rate w₁ job.domain true now in
      let w₃ = if recheck then w₂ else w₁ in
      if recheck && not rl.allowed
      then (rate_limited rl.retry_after_ms, delay w₃ (now + rl.retry_after_ms))
      else if page.status == 429
      then (http_429 (wait_after page), delay w₃ (now + wait_after page))
      else process_page w₃ job id proxy page

  -- One run of the worker on the job `id`.
  unfoldable pub http_worker :
      HttpWorld → ScrapeJob → String → Option Page → ℕ → Outcome × HttpWorld
  unfolding check_rate check_crawl choose_proxy fetch_page union_batched_tracking_ids matches_ci
  http_worker w job id page now =
      let ids = union_batched_tracking_ids 𝓡 numbered w.redis id job.competitor_tracking_ids in
      let batched = record job { competitor_tracking_ids = ids } in
      let is_shopify = matches_ci job.domain "myshopify.com" in
      let (rl, w₁) = check_rate w job.domain is_shopify now in
      if not rl.allowed
      then (rate_limited rl.retry_after_ms, delay w₁ (now + rl.retry_after_ms))
      else let (cd, w₂) = check_crawl w₁ job.domain now in
        if not cd.allowed
        then (crawl_delayed cd.retry_after_ms, delay w₂ (now + cd.retry_after_ms))
        else let (chosen, w₃) = choose_proxy w₂ job.domain now in
          elim chosen [
            | none ↦ (proxy_exhausted, delay w₃ (now + requeue_ms))
            | some proxy ↦
                let w₄ = record w₃ { fetches = proxy ∷ w₃.fetches } in
                fetch_page w₄ batched id proxy is_shopify page now
          ]
