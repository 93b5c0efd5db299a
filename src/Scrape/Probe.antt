-- ===== src/Scrape/Probe.antt =====
-- workers/probe.ts: how a domain is classified, and the probe worker. What the network answers is
-- an argument, with the blocks of JSON-LD in the page as `JSON.parse` reads them and with the
-- answers of the packages robots-parser and cheerio.
pub mod Verdicts
use new_specter.Redis.{Redis, Key, domain_class, Value, text}
use new_specter.Proxy.Health.{ProxyHealthStore}
use new_specter.Proxy.Manager.{ProxyManager, Tier, datacenter, next, report_result}
use new_specter.Schedule.Plans.{priority_of}
use new_specter.Schedule.Streak.{cache_domain_class}
use new_specter.Schedule.Dispatch.{
  Queue, http_queue, playwright_queue, ScrapeJob, union_batched_tracking_ids,
}
use new_specter.Scrape.Platform.{Platform, detect_platform}
use new_specter.Common.{
  ℕ, zero, suc, ◌+◌, ◌-◌, ◌*◌, ◌/◌, ◌%◌, ◌^◌, ◌≤◌, ◌<◌, min, max, String, ◌≡◌, refl, sym, ap, subst,
  ◌∙◌, fun_ext, ◌≢◌, ◌↔◌, ◌⊎◌, inl, inr, Bool, true, false, not, ◌&&◌, ◌||◌, Option, none, some,
  List, [], ◌∷◌, ◌++◌, map, arith, ℕ_discrete, ltb, leb, ◌==◌, if◌then◌else◌, ltb→lt, lt→ltb,
  leb→le, le→leb, ==_iff, Bool-cases, Option-cases, is_some, or_else, length, get_or, any_of,
  all_of, filter_by, length-append, any_of-append, get_or-any_of, any_of-false, all_of-get_or,
  all_of-filter_by, length-filter_by-le, str_eq, str_eq_iff, str_eq_refl, str_eq_ne, includes,
  includes-any_of, codes, contains, matches_ci,
}

mutual
  pub data Json : Type 0 where
    null_value : Json
    scalar_value : Json
    text_value : String → Json
    array_value : Elements → Json
    object_value : Fields → Json

  pub data Elements : Type 0 where
    end_of_array : Elements
    element : Json → Elements → Elements

  pub data Fields : Type 0 where
    end_of_object : Fields
    field : String → Json → Fields → Fields

-- A member of an object; of two with one name the later counts.
unfoldable pub member : String → Fields → Option Json
member name end_of_object = none
member name (field n v rest) =
    let later = member name rest in
    if is_some later then later else if str_eq n name then some v else none

-- `value[name]`, which a value without members has not.
abbrev pub property : String → Json → Option Json
property name (object_value fs) = member name fs
property name _ = none

-- `value != null`.
abbrev pub is_present : Option Json → Bool
is_present none = false
is_present (some null_value) = false
is_present (some v) = true

abbrev pub is_product : Option Json → Bool
is_product (some (text_value t)) = str_eq t "Product"
is_product _ = false

unfoldable pub has_offer : Json → Bool
unfolding member
has_offer entry = is_product (property "@type" entry) && elim (property "offers" entry) [
  | some offers ↦
      is_present (property "price" offers) || is_present (property "priceSpecification" offers)
  | none ↦ false
]

unfoldable pub any_offer : Elements → Bool
unfolding has_offer
any_offer end_of_array = false
any_offer (element j rest) = let later = any_offer rest in has_offer j || later

-- Heuristic 4 on the blocks; `none` is one that is malformed.
unfoldable pub block_has_offer : Option Json → Bool
unfolding any_offer
block_has_offer none = false
block_has_offer (some (array_value es)) = any_offer es
block_has_offer (some j) = has_offer j

pub data Classification : Type 0 where
  http_ok js_required blocked : Classification

pub data ClassifyVia : Type 0 where
  bot_wall robots heuristic : ClassifyVia

pub record ClassifyResult : Type 0 where
  pub classification : Classification
  pub via : ClassifyVia

abbrev pub cf_body_markers : List String
cf_body_markers =
    "cf-challenge-error" ∷ "Just a moment..." ∷ "<title>Just a moment</title>"
    ∷ "Checking your browser" ∷ []

-- The answer to the HEAD request; without one its status is 0 and its mark is empty.
pub record HeadReply : Type 0 where
  pub status : ℕ
  pub cf_mitigated : String

pub record GetReply : Type 0 where
  pub status : ℕ
  pub cf_mitigated : String
  pub headers : List String
  pub html : String
  pub json_ld : List (Option Json)
  pub has_price_element : Bool

abbrev pub is_challenge : String → Bool
is_challenge mark = str_eq mark "challenge"

abbrev pub by_heuristic : Classification → ClassifyResult
by_heuristic c = record { classification = c; via = heuristic }

-- Heuristics 1 to 7, on the answer to the GET; `disallowed` is robots.txt's word on the path.
unfoldable pub classify_page : GetReply → Bool → ClassifyResult
unfolding block_has_offer detect_platform contains
classify_page r disallowed =
    if disallowed
    then record { classification = blocked; via = robots }
    else if is_challenge r.cf_mitigated || any_of (contains r.html) cf_body_markers
    then by_heuristic js_required
    else if is_some (detect_platform r.headers r.html)
    then by_heuristic http_ok
    else if contains r.html "<script id=\"__NEXT_DATA__\""
    then by_heuristic http_ok
    else if any_of block_has_offer r.json_ld
    then by_heuristic http_ok
    else if contains r.html "window.__INITIAL_STATE__"
        || contains r.html "ng-version"
        || contains r.html "id=\"__nuxt__\""
    then by_heuristic js_required
    else if r.has_price_element
    then by_heuristic http_ok
    else by_heuristic js_required

module _ (𝓢 : ProxyHealthStore) (allow_direct : Bool) where
  -- Lines 90-138 and on: the proxy, the GET (`none` is a failure) and the page.
  unfoldable pub classify_by_get :
      Option (ProxyManager 𝓢.State)
      → String
      → Option GetReply
      → Bool
      → ℕ
      → ClassifyResult × Option (ProxyManager 𝓢.State)
  unfolding classify_page
  classify_by_get none domain none disallowed now = (by_heuristic js_required, none)
  classify_by_get none domain (some r) disallowed now = (classify_page r disallowed, none)
  classify_by_get (some m) domain reply disallowed now =
      let (picked, m₁) = next 𝓢 m datacenter (some domain) now in
      elim picked [
        | none ↦ (
          if allow_direct
              then elim reply [
                | some r ↦ classify_page r disallowed
                | none ↦ by_heuristic js_required
              ]
              else by_heuristic js_required,
          some m₁,
        )
        | some url ↦ elim reply [
          | none ↦ (by_heuristic js_required, some (report_result 𝓢 m₁ url 0 now))
          | some r ↦ (classify_page r disallowed, some (report_result 𝓢 m₁ url r.status now))
        ]
      ]

  unfoldable pub classify_url :
      Option (ProxyManager 𝓢.State)
      → String
      → HeadReply
      → Option GetReply
      → Bool
      → ℕ
      → ClassifyResult × Option (ProxyManager 𝓢.State)
  unfolding classify_by_get
  classify_url proxies domain head reply disallowed now =
      if is_challenge head.cf_mitigated
      then (by_heuristic js_required, proxies)
      else if head.status == 403
      then (record { classification = blocked; via = bot_wall }, proxies)
      else classify_by_get proxies domain reply disallowed now

abbrev pub is_robots : ClassifyVia → Bool
is_robots robots = true
is_robots _ = false

abbrev pub class_name : Classification → String
class_name http_ok = "http_ok"
class_name js_required = "js_required"
class_name blocked = "blocked"

-- A notice to specter-api that the domain is blocked.
pub record BlockNotice : Type 0 where
  pub domain : String
  pub competitor_tracking_ids : List String
  pub robots_blocked : Bool

module _ (𝓡 : Redis) (numbered : ℕ → String) where
  open 𝓡 use {State}

  pub record ProbeWorld : Type 0 where
    pub redis : State
    pub follow_ups : List (Queue × ScrapeJob × ℕ)
    pub notices : List BlockNotice

  abbrev pub follow_up_queue : Classification → Queue
  follow_up_queue http_ok = http_queue
  follow_up_queue _ = playwright_queue

  -- The probe worker on the job `id`, from the result of `classifyUrl`.
  unfoldable pub probe_worker : ProbeWorld → ScrapeJob → String → ClassifyResult → ProbeWorld
  unfolding priority_of union_batched_tracking_ids cache_domain_class
  probe_worker w job id result =
      let ids = union_batched_tracking_ids 𝓡 numbered w.redis id job.competitor_tracking_ids in
      let batched = record job { competitor_tracking_ids = ids } in
      let s = cache_domain_class 𝓡 w.redis job.domain (class_name result.classification) in
      let w₁ = record w { redis = s } in
      elim result.classification [
        | blocked ↦ record w₁ {
          notices =
              record {
                domain = job.domain;
                competitor_tracking_ids = ids;
                robots_blocked = is_robots result.via;
              }
              ∷ w.notices;
        }
        | c ↦ record w₁ {
          follow_ups = (follow_up_queue c, batched, priority_of job.plan) ∷ w.follow_ups;
        }
      ]
