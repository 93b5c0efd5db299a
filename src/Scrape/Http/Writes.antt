-- ===== src/Scrape/Http/Writes.antt =====
-- workers/http.ts: what the HTTP worker posts to specter-api.
use new_specter.Redis.{Redis, batch_set, http_fail, last_price}
use new_specter.Proxy.Health.{ProxyHealthStore}
use new_specter.Schedule.Dispatch.{ScrapeJob, union_batched_tracking_ids}
use new_specter.Schedule.Dispatch.Batches.{union-includes}
use new_specter.Scrape.Validate.{Number, ParseResult, validate_parse_result, is_iso_code, valid_iff}
use new_specter.Scrape.Http.{
  Snapshot, Page, HttpWorld, check_rate, check_crawl, choose_proxy, report_proxy, count_failure,
  write_snapshot, process_page, fetch_page, http_worker, no_result, snapshot_of, cached_price,
}
use new_specter.Common.{
  ℕ, ◌*◌, ◌<◌, String, ◌≡◌, refl, ap, ◌∙◌, ◌⊎◌, inl, inr, Bool, true, not, ◌&&◌, ◌||◌, Option, none,
  some, ◌∷◌, arith, ◌==◌, Bool-cases, Option-cases, is_some, or_else, length, includes, codes,
  matches_ci,
}

-- What is fit to be posted for the job: a positive price under a million, a currency of three
-- capital letters, a stock, and the job's tracking ids.
pub record IsPostable (unit : ℕ) (job : ScrapeJob) (s : Snapshot) : Type 0 where
  pub price_positive : 0 < s.price
  pub price_bounded : s.price < 1_000_000 * unit
  pub currency_is_iso : is_iso_code s.currency ≡ true
  pub stock_known : is_some s.in_stock ≡ true
  pub ids_kept : s.competitor_tracking_ids ≡ job.competitor_tracking_ids

module _ (𝓡 : Redis) (𝓢 : ProxyHealthStore) (numbered : ℕ → String) (unit eclipse_ms requeue_ms : ℕ)
    (allow : Bool) where
  open 𝓡 use {smembers, get, del}

  abbrev World : Type 0
  World = HttpWorld 𝓡 𝓢 numbered unit eclipse_ms requeue_ms allow

  abbrev pub PostsAtMost : World → World → ScrapeJob → Type 0
  PostsAtMost w w' job =
      (w'.posts ≡ w.posts) ⊎ ((s : Snapshot) × (w'.posts ≡ s ∷ w.posts) × IsPostable unit job s)

  write_snapshot-posts :
      (w : World) (job : ScrapeJob) (id : String) (proxy : Option String) (parsed : ParseResult)
      (review : Bool) (page : Page)
      → (write_snapshot 𝓡 𝓢 numbered unit eclipse_ms requeue_ms allow w job id proxy parsed review
          page).1.posts
        ≡ snapshot_of 𝓡 𝓢 numbered unit eclipse_ms requeue_ms allow job id proxy parsed review
            (length (codes page.html))
          ∷ w.posts
  unfolding write_snapshot
  write_snapshot-posts w job id proxy parsed review page = ground arith

  snapshot_of-IsPostable :
      (job : ScrapeJob) (id : String) (proxy : Option String) (r : ParseResult)
      (previous : Option Number) (review : Bool) (bytes : ℕ)
      → (validate_parse_result unit r previous).valid ≡ true
      → IsPostable unit job
          (snapshot_of 𝓡 𝓢 numbered unit eclipse_ms requeue_ms allow job id proxy r review bytes)
  unfolding snapshot_of
  snapshot_of-IsPostable job id proxy r previous review bytes e =
      let v = (valid_iff unit r previous).0 e in
      let (n, p, lo, hi) = v.0 in
      record {
        price_positive = rw p lo;
        price_bounded = rw p hi;
        currency_is_iso = v.1;
        stock_known = v.2;
        ids_kept = refl;
      }

  process_page-posts :
      (w : World) (job : ScrapeJob) (id : String) (proxy : Option String) (page : Page)
      → PostsAtMost w
          (process_page 𝓡 𝓢 numbered unit eclipse_ms requeue_ms allow w job id proxy page).1
          job
  unfolding process_page count_failure
  process_page-posts w job id proxy page =
      let parsed = or_else page.resolved no_result in
      let w₁ : World = record w { redis = del w.redis (http_fail job.domain) } in
      let previous = cached_price (get w₁.redis (last_price job.domain job.url_path)) in
      let v = validate_parse_result unit parsed previous in
      elim (Bool-cases (is_some parsed.price)) [
        | inr a ↦ rw (a, process_page) (inl refl)
        | inl a ↦
            rw (a, process_page)
              (elim (Bool-cases v.valid) [
                | inr b ↦ rw b (inl refl)
                | inl b ↦ rw b (
                    inr (
                      snapshot_of 𝓡 𝓢 numbered unit eclipse_ms requeue_ms allow job id proxy parsed
                          v.needs_review (length (codes page.html)),
                      write_snapshot-posts w₁ job id proxy parsed v.needs_review page,
                      snapshot_of-IsPostable job id proxy parsed previous v.needs_review
                          (length (codes page.html)) b,
                    ))
              ])
      ]

  report_proxy-posts :
      (w : World) (proxy : Option String) (status now : ℕ)
      → (report_proxy 𝓡 𝓢 numbered unit eclipse_ms requeue_ms allow w proxy status now).posts
        ≡ w.posts
  unfolding report_proxy
  report_proxy-posts w proxy status now = ground arith

  PostsAtMost-from :
      (w w₁ w' : World) (job : ScrapeJob)
      → w₁.posts ≡ w.posts
      → PostsAtMost w₁ w' job
      → PostsAtMost w w' job
  PostsAtMost-from w w₁ w' job e (inl f) = inl (f ∙ e)
  PostsAtMost-from w w₁ w' job e (inr (s, f, p)) = inr (s, f ∙ ap (λ l. s ∷ l) e, p)

  check_rate-posts :
      (w : World) (domain : String) (is_shopify : Bool) (now : ℕ)
      → (check_rate 𝓡 𝓢 numbered unit eclipse_ms requeue_ms allow w domain is_shopify now).1.posts
        ≡ w.posts
  unfolding check_rate
  check_rate-posts w domain is_shopify now = refl

  fetch_page-posts :
      (w : World) (job : ScrapeJob) (id : String) (proxy : Option String) (is_shopify : Bool)
      (page : Option Page) (now : ℕ)
      → PostsAtMost w
          (fetch_page 𝓡 𝓢 numbered unit eclipse_ms requeue_ms allow w job id proxy is_shopify page
            now).1
          job
  unfolding fetch_page count_failure
  fetch_page-posts w job id proxy is_shopify none now = inl (report_proxy-posts w proxy 0 now)
  fetch_page-posts w job id proxy is_shopify (some page) now =
      let w₁ = report_proxy 𝓡 𝓢 numbered unit eclipse_ms requeue_ms allow w proxy page.status now in
      let (rl, w₂) =
        check_rate 𝓡 𝓢 numbered unit eclipse_ms requeue_ms allow w₁ job.domain true now in
      let recheck = page.shopify_header && not is_shopify in
      let e₁ = report_proxy-posts w proxy page.status now in
      let e₂ = check_rate-posts w₁ job.domain true now ∙ e₁ in
      elim (Bool-cases recheck) [
        | inr a ↦
            rw (a, fetch_page)
              (elim (Bool-cases (page.status == 429)) [
                | inl b ↦ rw b (inl e₁)
                | inr b ↦ rw b (
                    PostsAtMost-from w w₁
                      (process_page 𝓡 𝓢 numbered unit eclipse_ms requeue_ms allow w₁ job id proxy
                        page).1
                      job e₁ (process_page-posts w₁ job id proxy page))
              ])
        | inl a ↦
            rw (a, fetch_page)
              (elim (Bool-cases rl.allowed) [
                | inr r ↦ rw r (inl e₂)
                | inl r ↦ rw r (elim (Bool-cases (page.status == 429)) [
                  | inl b ↦ rw b (inl e₂)
                  | inr b ↦ rw b (
                      PostsAtMost-from w w₂
                        (process_page 𝓡 𝓢 numbered unit eclipse_ms requeue_ms allow w₂ job id proxy
                          page).1
                        job e₂ (process_page-posts w₂ job id proxy page))
                ])
              ])
      ]

  choose_proxy-posts :
      (w : World) (domain : String) (now : ℕ)
      → (choose_proxy 𝓡 𝓢 numbered unit eclipse_ms requeue_ms allow w domain now).1.posts ≡ w.posts
  unfolding choose_proxy
  choose_proxy-posts w domain now = ground arith

  abbrev pub batched_job : World → ScrapeJob → String → ScrapeJob
  batched_job w job id = record job {
    competitor_tracking_ids =
        union_batched_tracking_ids 𝓡 numbered w.redis id job.competitor_tracking_ids;
  }

  http_worker-posts :
      (w : World) (job : ScrapeJob) (id : String) (page : Option Page) (now : ℕ)
      → PostsAtMost w
          (http_worker 𝓡 𝓢 numbered unit eclipse_ms requeue_ms allow w job id page now).1
          (batched_job w job id)
  unfolding http_worker check_crawl
  http_worker-posts w job id page now =
      let shop = matches_ci job.domain "myshopify.com" in
      let (rl, w₁) =
        check_rate 𝓡 𝓢 numbered unit eclipse_ms requeue_ms allow w job.domain shop now in
      let (cd, w₂) = check_crawl 𝓡 𝓢 numbered unit eclipse_ms requeue_ms allow w₁ job.domain now in
      let (chosen, w₃) =
        choose_proxy 𝓡 𝓢 numbered unit eclipse_ms requeue_ms allow w₂ job.domain now in
      let e = choose_proxy-posts w₂ job.domain now in
      elim (Bool-cases rl.allowed) [
        | inr a ↦ rw (a, http_worker) (inl refl)
        | inl a ↦
            rw (a, http_worker)
              (elim (Bool-cases cd.allowed) [
                | inr b ↦ rw b (inl refl)
                | inl b ↦ rw b (elim (Option-cases chosen) [
                  | inl c ↦ rw c (inl e)
                  | inr (proxy, c) ↦
                      let w₄ : World = record w₃ { fetches = proxy ∷ w₃.fetches } in
                      rw c (
                        PostsAtMost-from w w₄
                          (fetch_page 𝓡 𝓢 numbered unit eclipse_ms requeue_ms allow w₄
                            (batched_job w job id) id proxy shop page now).1
                          (batched_job w job id) e
                          (fetch_page-posts w₄ (batched_job w job id) id proxy shop page now))
                ])
              ])
      ]

  -- A run of the HTTP worker posts nothing or one snapshot, and what it posts has a positive price
  -- under a million, a currency of three capital letters and a stock, and exactly the tracking ids
  -- that the job has or that were batched onto it.
  pub posted_is_valid :
      (w : World) (job : ScrapeJob) (id : String) (page : Option Page) (now : ℕ)
      → let w' = (http_worker 𝓡 𝓢 numbered unit eclipse_ms requeue_ms allow w job id page now).1 in
        (w'.posts ≡ w.posts)
        ⊎ ((s : Snapshot) × (w'.posts ≡ s ∷ w.posts)
            × IsPostable unit (batched_job w job id) s
            × ((t : String)
                → includes t s.competitor_tracking_ids ≡ (
                    includes t job.competitor_tracking_ids
                    || includes t (smembers w.redis (batch_set id)))))
  posted_is_valid w job id page now = elim (http_worker-posts w job id page now) [
    | inl e ↦ inl e
    | inr (s, e, p) ↦ inr (
      s,
      e,
      p,
      λ t.
          ap (includes t) p.ids_kept
          ∙ union-includes 𝓡 numbered w.redis id job.competitor_tracking_ids t,
    )
  ]
