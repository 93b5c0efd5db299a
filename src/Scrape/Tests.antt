-- ===== src/Scrape/Tests.antt =====
-- The workers at concrete inputs.
use new_specter.Redis.{batch_set}
use new_specter.Redis.Memory.{Memory, memory_redis, empty_memory}
use new_specter.Proxy.Health.{HealthMap, in_memory_store}
use new_specter.Proxy.Manager.{ProxyManager, pool_for}
use new_specter.Proxy.Manager.Picking.{IsWellFormed}
use new_specter.Proxy.Manager.Selection.{IsServable}
use new_specter.Schedule.Plans.{predator, priority_of}
use new_specter.Schedule.Dispatch.{
  ScrapeJob, route, domain_class_of, union_batched_tracking_ids, http_queue,
}
use new_specter.Scrape.Validate.{amount, ParseResult, normalise_currency}
use new_specter.Scrape.Http.{Snapshot, Page, HttpWorld, http_worker, retry_after_in}
use new_specter.Scrape.Http.Egress.{egress_through_proxy}
use new_specter.Scrape.Http.Writes.{IsPostable, batched_job, posted_is_valid}
use new_specter.Scrape.Probe.{http_ok, heuristic, ClassifyResult, ProbeWorld, probe_worker}
use new_specter.Scrape.Probe.Verdicts.{way_of, next_dispatch_follows}
use new_specter.Scrape.Playwright.{Visit, RenderWorld}
use new_specter.Scrape.Captcha.{
  recaptcha, CaptchaSolveJob, CaptchaWorld, SolverReply, detect_captcha_in_content,
  extract_site_key,
}
use new_specter.Scrape.Captcha.Claims.{Event, meets, happen, solve_count, at_most_one_solve}
use new_specter.Common.{
  ℕ, ◌≤◌, String, ◌≡◌, refl, ◌⊎◌, true, false, ◌||◌, none, some, [], ◌∷◌, arith, includes, codes,
}

abbrev rupees : ParseResult
rupees = record {
  price = some (amount 49_900);
  in_stock = some true;
  currency = " Rs. ";
  title = some "Lamp";
}

rupee_code : normalise_currency rupees.currency ≡ codes "INR"
unfolding normalise_currency
rupee_code = refl

retry_after : retry_after_in (codes "<pre>Retry-after:  120s</pre>") ≡ some 120
unfolding retry_after_in
retry_after = refl

abbrev lamp : ScrapeJob
lamp = record {
  url = "https://shop.test/lamp";
  domain = "shop.test";
  url_path = "/lamp";
  competitor_tracking_ids = "alpha" ∷ [];
  plan = some predator;
}

abbrev numbered : ℕ → String
numbered n = "1"

abbrev one_proxy : ProxyManager HealthMap
one_proxy = record {
  settings = record {
    datacenter_urls = "dc1" ∷ [];
    residential_urls = [];
    cooldown_ms = 300_000;
    sticky_window_ms = 30_000;
    ban_statuses = 403 ∷ 429 ∷ 0 ∷ [];
    healthy_score = 100;
    penalty_per_ban = 50;
    recovery_per_ok = 10;
  };
  store = [];
  datacenter_cursor = 0;
  residential_cursor = 0;
  sticky = [];
}

one_proxy-IsWellFormed : IsWellFormed in_memory_store one_proxy
unfolding pool_for
one_proxy-IsWellFormed = ground arith

abbrev batched_memory : Memory
batched_memory = record {
  values = λ k. none;
  sets = λ k. elim k [ batch_set j ↦ "beta" ∷ [] | _ ↦ [] ];
}

abbrev world : HttpWorld memory_redis in_memory_store numbered 100 300_000 60_000 false
world = record {
  redis = batched_memory;
  rendered = [];
  buckets = λ d. none;
  rate_override = none;
  crawl_config = λ d. none;
  last_request = λ d. none;
  proxies = some one_proxy;
  fetches = [];
  reports = [];
  posts = [];
  delayed_to = [];
}

abbrev lamp_page : Page
lamp_page = record {
  status = 200;
  html = "";
  shopify_header = false;
  resolved = some rupees;
  accepted = true;
}

egress_through_proxy_example :
    let w' =
      (http_worker memory_redis in_memory_store numbered 100 300_000 60_000 false world lamp "1"
        (some lamp_page)
        5).1 in
    (w'.fetches ≡ world.fetches)
    ⊎ ((url : String) × (w'.fetches ≡ some url ∷ world.fetches)
        × IsServable in_memory_store one_proxy 5 url)
egress_through_proxy_example =
    egress_through_proxy memory_redis in_memory_store numbered 100 300_000 60_000 world lamp "1"
      (some lamp_page) 5 one_proxy refl one_proxy-IsWellFormed

posted_is_valid_example :
    let w' =
      (http_worker memory_redis in_memory_store numbered 100 300_000 60_000 false world lamp "1"
        (some lamp_page)
        5).1 in
    (w'.posts ≡ world.posts)
    ⊎ ((s : Snapshot) × (w'.posts ≡ s ∷ world.posts)
        × IsPostable 100
            (batched_job memory_redis in_memory_store numbered 100 300_000 60_000 false world lamp
              "1")
            s
        × ((t : String)
            → includes t s.competitor_tracking_ids
              ≡ (includes t lamp.competitor_tracking_ids || includes t ("beta" ∷ []))))
posted_is_valid_example =
    posted_is_valid memory_redis in_memory_store numbered 100 300_000 60_000 false world lamp "1"
      (some lamp_page) 5

abbrev probing : ProbeWorld memory_redis numbered
probing = record { redis = batched_memory; follow_ups = []; notices = [] }

abbrev fetchable : ClassifyResult
fetchable = record { classification = http_ok; via = heuristic }

next_dispatch_follows_example :
    let w' = probe_worker memory_redis numbered probing lamp "1" fetchable in
    let ids = union_batched_tracking_ids memory_redis numbered batched_memory "1" ("alpha" ∷ []) in
    (route memory_redis numbered (domain_class_of memory_redis numbered w'.redis "shop.test")
      ≡ way_of memory_redis numbered http_ok)
    × (w'.follow_ups
        ≡ (http_queue, record lamp { competitor_tracking_ids = ids }, priority_of (some predator))
          ∷ [])
next_dispatch_follows_example =
    next_dispatch_follows memory_redis numbered probing lamp "1" fetchable

abbrev accepted : SolverReply
accepted = record { status = 1; request = "77" }

abbrev challenge : String
challenge = "<div class=\"g-recaptcha\" data-sitekey=\"k1\"></div>"

abbrev met : Event
met = meets "shop.test" "https://shop.test/lamp" challenge false

abbrev unclaimed : CaptchaWorld memory_redis
unclaimed = record { redis = empty_memory; solves = [] }

at_most_one_solve_example :
    solve_count memory_redis recaptcha "k1" "https://shop.test/lamp"
      (happen memory_redis unclaimed (met ∷ met ∷ []))
    ≤ 1
at_most_one_solve_example =
    at_most_one_solve memory_redis recaptcha "k1" "https://shop.test/lamp" unclaimed
      (met ∷ met ∷ []) refl refl

abbrev solve_job : CaptchaSolveJob
solve_job = record {
  type = recaptcha;
  site_key = "k1";
  page_url = "https://shop.test/lamp";
  domain = "shop.test";
}

detected : detect_captcha_in_content solve_job.page_url challenge ≡ some recaptcha
unfolding detect_captcha_in_content
detected = refl

keyed : extract_site_key challenge ≡ some "k1"
unfolding extract_site_key
keyed = refl

abbrev rendering : RenderWorld memory_redis in_memory_store numbered 100 300_000
rendering = record {
  redis = batched_memory;
  solves = [];
  crawl_config = λ d. none;
  last_request = λ d. none;
  proxies = some one_proxy;
  active_proxy = some "dc1";
  open_contexts = 2;
  reports = [];
  posts = [];
  delayed_to = [];
}

abbrev lamp_visit : Visit
lamp_visit = record {
  navigates = true;
  page_url = "https://shop.test/lamp";
  content = "";
  clears = false;
  parsed = rupees;
  rendered_length = 10;
  accepted = true;
}
