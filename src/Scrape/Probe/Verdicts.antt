-- ===== src/Scrape/Probe/Verdicts.antt =====
-- workers/probe.ts and scheduler.ts: the verdicts of the probe and the dispatches after it.
use new_specter.Redis.{Redis, domain_class, text}
use new_specter.Proxy.Health.{ProxyHealthStore}
use new_specter.Proxy.Manager.{ProxyManager}
use new_specter.Schedule.Plans.{priority_of}
use new_specter.Schedule.Streak.{cache_domain_class, domain_class_ttl_seconds}
use new_specter.Schedule.Dispatch.{
  Point, done, classified, ScrapeJob, route, select_queue, domain_class_of,
  union_batched_tracking_ids, held_text,
}
use new_specter.Scrape.Probe.{
  Classification, http_ok, js_required, blocked, ClassifyVia, bot_wall, ClassifyResult, HeadReply,
  GetReply, is_challenge, classify_page, classify_by_get, classify_url, class_name, ProbeWorld,
  follow_up_queue, is_robots, probe_worker,
}
use new_specter.Common.{
  not, ◌&&◌, ℕ, ◌*◌, String, ◌≡◌, refl, ap, ◌∙◌, ◌↔◌, Bool, true, false, ◌||◌, Option, none, some,
  ◌∷◌, arith, if◌then◌else◌, is_some,
}

abbrev pub blocks_domain : ClassifyResult → Bool
blocks_domain r = elim r.classification [ blocked ↦ true | _ ↦ false ]

abbrev pub is_bot_wall : ClassifyVia → Bool
is_bot_wall bot_wall = true
is_bot_wall _ = false

classify_page-blocks_domain :
    (r : GetReply) (disallowed : Bool)
    → (blocks_domain (classify_page r disallowed) ≡ disallowed)
      × (is_robots (classify_page r disallowed).via ≡ disallowed)
      × (is_bot_wall (classify_page r disallowed).via ≡ false)
unfolding classify_page
classify_page-blocks_domain r true = (refl, refl, refl)
classify_page-blocks_domain r false = ground arith

held_name : (c : Classification) → held_text (some (text (class_name c))) ≡ some (class_name c)
held_name http_ok = refl
held_name js_required = refl
held_name blocked = refl

module _ (𝓢 : ProxyHealthStore) (allow : Bool) where
  classify_by_get-blocks_domain :
      (proxies : Option (ProxyManager 𝓢.State)) (domain : String) (reply : Option GetReply)
      (disallowed : Bool) (now : ℕ)
      → let r = (classify_by_get 𝓢 allow proxies domain reply disallowed now).0 in
        (is_bot_wall r.via ≡ false)
        × (blocks_domain r ≡ is_robots r.via)
        × (blocks_domain r ≡ true → (disallowed ≡ true) × (is_some reply ≡ true))
  unfolding classify_by_get
  classify_by_get-blocks_domain none domain none disallowed now = ground arith
  classify_by_get-blocks_domain none domain (some r) disallowed now =
      ground (arith, classify_page-blocks_domain r disallowed)
  classify_by_get-blocks_domain (some m) domain none disallowed now = ground arith
  classify_by_get-blocks_domain (some m) domain (some r) disallowed now =
      ground (arith, classify_page-blocks_domain r disallowed)

  -- A URL is classified as blocked only where a HEAD without a challenge was answered with 403, and
  -- then by the bot wall, or where a page was fetched and robots.txt disallows the path, and then
  -- by robots.txt. Every other verdict is a heuristic's.
  pub blocked_for_reason :
      (proxies : Option (ProxyManager 𝓢.State)) (domain : String) (head : HeadReply)
      (reply : Option GetReply) (disallowed : Bool) (now : ℕ)
      → let r = (classify_url 𝓢 allow proxies domain head reply disallowed now).0 in
        (blocks_domain r ≡ (is_bot_wall r.via || is_robots r.via))
        × ((is_bot_wall r.via ≡ true)
            ↔ ((is_challenge head.cf_mitigated ≡ false) × (head.status ≡ 403)))
        × ((not (is_robots r.via) || (disallowed && is_some reply)) ≡ true)
  unfolding classify_url
  blocked_for_reason proxies domain head reply disallowed now =
      ground (arith, classify_by_get-blocks_domain proxies domain reply disallowed now)

module _ (𝓡 : Redis) (numbered : ℕ → String) where
  open 𝓡 use {get, smembers, get-set}

  -- Where a dispatch goes that finds the class.
  abbrev pub way_of : Classification → Point
  way_of blocked = done none
  way_of c = classified (follow_up_queue 𝓡 numbered c)

  domain_class_of-set :
      (s : 𝓡.State) (domain : String) (c : Classification)
      → domain_class_of 𝓡 numbered (cache_domain_class 𝓡 s domain (class_name c)) domain
        ≡ some (class_name c)
  unfolding domain_class_of cache_domain_class
  domain_class_of-set s domain c =
      ap held_text
        (get-set s (domain_class domain) (text (class_name c)) (domain_class_ttl_seconds * 1000))
      ∙ held_name c

  probe_worker-redis :
      (w : ProbeWorld 𝓡 numbered) (job : ScrapeJob) (id : String) (r : ClassifyResult)
      → (probe_worker 𝓡 numbered w job id r).redis
        ≡ cache_domain_class 𝓡 w.redis job.domain (class_name r.classification)
  unfolding probe_worker
  probe_worker-redis w job id r = ground arith

  route-class_name : (c : Classification) → route 𝓡 numbered (some (class_name c)) ≡ way_of c
  unfolding route select_queue
  route-class_name http_ok = refl
  route-class_name js_required = refl
  route-class_name blocked = refl

  -- After the probe worker ran, a dispatch that looks up the domain's class goes the way of the
  -- probe: it ends without a job if the domain is blocked, and takes the queue of the follow-up
  -- otherwise. The follow-up of an unblocked domain is one job with the ids of the job and those
  -- batched onto it.
  pub next_dispatch_follows :
      (w : ProbeWorld 𝓡 numbered) (job : ScrapeJob) (id : String) (r : ClassifyResult)
      → let w' = probe_worker 𝓡 numbered w job id r in
        let ids = union_batched_tracking_ids 𝓡 numbered w.redis id job.competitor_tracking_ids in
        (route 𝓡 numbered (domain_class_of 𝓡 numbered w'.redis job.domain)
          ≡ way_of r.classification)
        × (w'.follow_ups ≡ (
            if blocks_domain r
            then w.follow_ups
            else (
              follow_up_queue 𝓡 numbered r.classification,
              record job { competitor_tracking_ids = ids },
              priority_of job.plan,
            )
              ∷ w.follow_ups))
  unfolding probe_worker
  next_dispatch_follows w job id r = (
    ap (λ s. route 𝓡 numbered (domain_class_of 𝓡 numbered s job.domain))
          (probe_worker-redis w job id r)
        ∙ ap (route 𝓡 numbered) (domain_class_of-set w.redis job.domain r.classification)
        ∙ route-class_name r.classification,
    ground arith,
  )
