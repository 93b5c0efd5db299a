-- ===== src/Scrape/Playwright/Renders.antt =====
-- workers/playwright.ts, lines 328-462: the posts and the contexts of a run.
use new_specter.Redis.{Redis}
use new_specter.Proxy.Health.{ProxyHealthStore}
use new_specter.Schedule.Dispatch.{ScrapeJob, union_batched_tracking_ids}
use new_specter.Scrape.Http.{Snapshot}
use new_specter.Scrape.Http.Writes.{IsPostable}
use new_specter.Scrape.Playwright.{RenderWorld}
use new_specter.Common.{ℕ, String, ◌≡◌, ◌⊎◌, ◌∷◌}

module _ (𝓡 : Redis) (𝓢 : ProxyHealthStore) (numbered : ℕ → String) (unit eclipse_ms : ℕ) where
  open 𝓡 use {smembers, get}

  abbrev World : Type 0
  World = RenderWorld 𝓡 𝓢 numbered unit eclipse_ms

  -- Nothing or one postable snapshot is posted, and the open contexts are as many as before.
  abbrev pub IsCareful : World → World → ScrapeJob → Type 0
  IsCareful w w' job =
      (w'.open_contexts ≡ w.open_contexts)
      × ((w'.posts ≡ w.posts) ⊎ ((s : Snapshot) × (w'.posts ≡ s ∷ w.posts) × IsPostable unit job s))

  abbrev pub batched_render : World → ScrapeJob → String → ScrapeJob
  batched_render w job id = record job {
    competitor_tracking_ids =
        union_batched_tracking_ids 𝓡 numbered w.redis id job.competitor_tracking_ids;
  }
