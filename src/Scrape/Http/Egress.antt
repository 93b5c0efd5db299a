-- ===== src/Scrape/Http/Egress.antt =====
-- workers/http.ts: what the HTTP worker lets out to the network.
use new_specter.Redis.{Redis}
use new_specter.Proxy.Health.{ProxyHealthStore}
use new_specter.Proxy.Manager.{ProxyManager, datacenter, next}
use new_specter.Proxy.Manager.Picking.{IsWellFormed}
use new_specter.Proxy.Manager.Selection.{IsServable, next-IsServable}
use new_specter.Schedule.Dispatch.{ScrapeJob, union_batched_tracking_ids}
use new_specter.Scrape.Validate.{ParseResult}
use new_specter.Scrape.Http.{
  Page, HttpWorld, check_rate, check_crawl, choose_proxy, report_proxy, count_failure,
  write_snapshot, process_page, fetch_page, http_worker,
}
use new_specter.Common.{
  ℕ, String, ◌≡◌, refl, ap, ◌∙◌, ◌⊎◌, inl, inr, Bool, true, false, Option, none, some, ◌∷◌, arith,
  Bool-cases, Option-cases, matches_ci,
}

module _ (𝓡 : Redis) (𝓢 : ProxyHealthStore) (numbered : ℕ → String)
    (unit eclipse_ms requeue_ms : ℕ) where
  abbrev World : Bool → Type 0
  World allow = HttpWorld 𝓡 𝓢 numbered unit eclipse_ms requeue_ms allow

  module _ (allow : Bool) where
    report_proxy-fetches :
        (w : World allow) (proxy : Option String) (status now : ℕ)
        → (report_proxy 𝓡 𝓢 numbered unit eclipse_ms requeue_ms allow w proxy status now).fetches
          ≡ w.fetches
    unfolding report_proxy
    report_proxy-fetches w proxy status now = ground arith

    write_snapshot-fetches :
        (w : World allow) (job : ScrapeJob) (id : String) (proxy : Option String)
        (parsed : ParseResult) (review : Bool) (page : Page)
        → (write_snapshot 𝓡 𝓢 numbered unit eclipse_ms requeue_ms allow w job id proxy parsed review
            page).1.fetches
          ≡ w.fetches
    unfolding write_snapshot
    write_snapshot-fetches w job id proxy parsed review page = ground arith

    count_failure-fetches :
        (w : World allow) (job : ScrapeJob)
        → (count_failure 𝓡 𝓢 numbered unit eclipse_ms requeue_ms allow w job).fetches ≡ w.fetches
    unfolding count_failure
    count_failure-fetches w job = refl

    process_page-fetches :
        (w : World allow) (job : ScrapeJob) (id : String) (proxy : Option String) (page : Page)
        → (process_page 𝓡 𝓢 numbered unit eclipse_ms requeue_ms allow w job id proxy page).1.fetches
          ≡ w.fetches
    unfolding process_page write_snapshot
    process_page-fetches w job id proxy page = ground (arith, count_failure-fetches w job)

    check_rate-fetches :
        (w : World allow) (domain : String) (is_shopify : Bool) (now : ℕ)
        → let w' =
            (check_rate 𝓡 𝓢 numbered unit eclipse_ms requeue_ms allow w domain is_shopify now).1 in
          (w'.fetches ≡ w.fetches) × (w'.proxies ≡ w.proxies)
    unfolding check_rate
    check_rate-fetches w domain is_shopify now = (refl, refl)

    check_crawl-fetches :
        (w : World allow) (domain : String) (now : ℕ)
        → let w' = (check_crawl 𝓡 𝓢 numbered unit eclipse_ms requeue_ms allow w domain now).1 in
          (w'.fetches ≡ w.fetches) × (w'.proxies ≡ w.proxies)
    unfolding check_crawl
    check_crawl-fetches w domain now = (refl, refl)

    fetch_page-fetches :
        (w : World allow) (job : ScrapeJob) (id : String) (proxy : Option String)
        (is_shopify : Bool) (page : Option Page) (now : ℕ)
        → (fetch_page 𝓡 𝓢 numbered unit eclipse_ms requeue_ms allow w job id proxy is_shopify page
            now).1.fetches
          ≡ w.fetches
    unfolding fetch_page
    fetch_page-fetches w job id proxy is_shopify none now =
        count_failure-fetches
          (report_proxy 𝓡 𝓢 numbered unit eclipse_ms requeue_ms allow w proxy 0 now) job
        ∙ report_proxy-fetches w proxy 0 now
    fetch_page-fetches w job id proxy is_shopify (some page) now =
        let w₁ =
          report_proxy 𝓡 𝓢 numbered unit eclipse_ms requeue_ms allow w proxy page.status now in
        let w₂ =
          (check_rate 𝓡 𝓢 numbered unit eclipse_ms requeue_ms allow w₁ job.domain true now).1 in
        ground (
          arith,
          report_proxy-fetches w proxy page.status now,
          (check_rate-fetches w₁ job.domain true now).0,
          process_page-fetches w₁ job id proxy page,
          process_page-fetches w₂ job id proxy page,
        )

    choose_proxy-fetches :
        (w : World allow) (domain : String) (now : ℕ)
        → (choose_proxy 𝓡 𝓢 numbered unit eclipse_ms requeue_ms allow w domain now).1.fetches
          ≡ w.fetches
    unfolding choose_proxy
    choose_proxy-fetches w domain now = ground arith

  choose_proxy-IsServable :
      (w : World false) (domain : String) (now : ℕ) (m : ProxyManager 𝓢.State)
      → w.proxies ≡ some m
      → IsWellFormed 𝓢 m
      → let chosen = (choose_proxy 𝓡 𝓢 numbered unit eclipse_ms requeue_ms false w domain now).0 in
        (chosen ≡ none) ⊎ ((url : String) × (chosen ≡ some (some url)) × IsServable 𝓢 m now url)
  unfolding choose_proxy
  choose_proxy-IsServable w domain now m e v =
      elim (Option-cases (next 𝓢 m datacenter (some domain) now).0) [
        | inl f ↦ rw (e, choose_proxy) (rw f (inl refl))
        | inr (url, f) ↦
            rw (e, choose_proxy)
              (rw f (inr (url, refl, next-IsServable 𝓢 m datacenter (some domain) now url v f)))
      ]

  -- With a well-formed proxy manager configured and without the direct fallback, a run of the
  -- worker sends nothing for its GET, or it sends one request through a configured proxy that is
  -- not cooling at that time: the origin's address stays hidden.
  pub egress_through_proxy :
      (w : World false) (job : ScrapeJob) (id : String) (page : Option Page) (now : ℕ)
      (m : ProxyManager 𝓢.State)
      → w.proxies ≡ some m
      → IsWellFormed 𝓢 m
      → let w' = (http_worker 𝓡 𝓢 numbered unit eclipse_ms requeue_ms false w job id page now).1 in
        (w'.fetches ≡ w.fetches)
        ⊎ ((url : String) × (w'.fetches ≡ some url ∷ w.fetches) × IsServable 𝓢 m now url)
  unfolding http_worker
  egress_through_proxy w job id page now m e v =
      let shop = matches_ci job.domain "myshopify.com" in
      let (rl, w₁) =
        check_rate 𝓡 𝓢 numbered unit eclipse_ms requeue_ms false w job.domain shop now in
      let (cd, w₂) = check_crawl 𝓡 𝓢 numbered unit eclipse_ms requeue_ms false w₁ job.domain now in
      let (chosen, w₃) =
        choose_proxy 𝓡 𝓢 numbered unit eclipse_ms requeue_ms false w₂ job.domain now in
      let f₁ = check_rate-fetches false w job.domain shop now in
      let f₂ = check_crawl-fetches false w₁ job.domain now in
      let f₃ = choose_proxy-fetches false w₂ job.domain now in
      let same = f₃ ∙ f₂.0 ∙ f₁.0 in
      let ids = union_batched_tracking_ids 𝓡 numbered w.redis id job.competitor_tracking_ids in
      elim (Bool-cases rl.allowed) [
        | inr a ↦ rw (a, http_worker) (inl f₁.0)
        | inl a ↦
            rw (a, http_worker)
              (elim (Bool-cases cd.allowed) [
                | inr b ↦ rw b (inl (f₂.0 ∙ f₁.0))
                | inl b ↦
                    rw b (elim (choose_proxy-IsServable w₂ job.domain now m (f₂.1 ∙ f₁.1 ∙ e) v) [
                      | inl c ↦ rw c (inl same)
                      | inr (url, c, s) ↦ rw c (
                          inr (
                            url,
                            fetch_page-fetches false (record w₃ { fetches = some url ∷ w₃.fetches })
                                  (record job { competitor_tracking_ids = ids }) id (some url) shop
                                  page now
                                ∙ ap (λ l. some url ∷ l) same,
                            s,
                          ))
                    ])
              ])
      ]
