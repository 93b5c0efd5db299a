-- ===== src/Lib.antt =====
-- SPECTER's scraper (specter-api/scraper) and the logic of its web client (specter-web/lib), both
-- in TypeScript, modelled from their sources.
--
-- The program watches product pages of competitors. A scheduler takes a URL that merchants track,
-- takes the lock of the URL and puts a job in the queue that the class of its domain asks for;
-- later dispatchers of the URL add their tracking ids to the set of that job. The probe worker
-- classifies a domain and enqueues the follow-up; the HTTP worker asks the rate limiter and the
-- crawl delay, takes a proxy from the proxy manager, fetches and validates the page and posts a
-- snapshot; a CAPTCHA that a browser meets is solved by a worker of its own. What they share is
-- Redis. The web client asks specter-api for what was found: it groups the competitors by their
-- domain, previews the prices that are suggested, and attributes revenue to the changes. Its free
-- tools keep scenarios in the browser and in links, and lift them into the account once a visitor
-- has one; the plan that a visitor chose before signing up waits in the browser too.
--
--   Proxy            proxy/manager.ts, proxy/redis-health-store.ts
--     Health         the store of proxy health as an interface, and the in-memory store
--     Rotation       the scan of pickHealthy
--     Manager        ProxyManager: next, reportFailure, reportSuccess, reportResult; its children are
--                    named for what they prove
--     Config         proxy/config.ts and getProxyManager of proxy/runtime.ts
--     SharedHealth   RedisProxyHealthStore: the local view, the mirrored writes and refreshOnce
--   Rate             workers/rate-limiter.ts
--     Bucket         evaluateTokenBucket and its Lua script; Admission: what it admits
--     Spacing        the crawl delay; Slots: the ceiling on simultaneous requests
--   Redis            the commands of ioredis that the scraper sends, with the laws that Redis documents
--     Memory         an instance, for runs on concrete inputs
--   Schedule         plans.ts, backoff.ts, state-ttl.ts, dispatch-lock.ts, batch-set.ts, scheduler.ts
--     Plans          the tables and computeAdaptiveInterval; Intervals: their bounds and order
--     Streak         state-ttl.ts; Observations: what the streak counts
--     Dispatch       dispatchScrapeJob, claimDomainLock, addToBatch, unionBatchedTrackingIds; Progress,
--                    Lock, Claim, Owners, OneFetch, Batches and Numbers are about dispatchers
--     Repeats        scheduleRepeatJobs
--   Scrape           workers/*.ts and domains/*.ts
--     Validate       workers/validate.ts and normaliseCurrency
--     Failures       incrementHttpFailCounter
--     Http           the HTTP worker; Egress: what it sends; Writes: what it posts
--     Platform       domains/platform.ts
--     Probe          classifyUrl and the probe worker; Verdicts: when a domain is blocked
--     Playwright     the Playwright worker; Renders: what it posts
--     Robots         workers/robots.ts
--     DeadLetter     the handler of failed jobs
--     Captcha        captcha.ts, captcha-solver.ts, handleCaptcha; Claims and Polling are about them
--     Domains        domains/index.ts: resolvePlatformParse
--       Urls         the addresses of shopify.ts and woocommerce.ts; Storefronts: their parsers
--       Numbers      parseFloat and parsePrice; Generic: the parsers of generic.ts
--       Order, Fallbacks and Stock are about resolvePlatformParse
--   Ops              bull-board-auth.ts
--   Web              specter-web/lib
--     Share          tools/share.ts; Base64: btoa and atob; Digits, RoundTrip and Rejects are about them
--     Storage        localStorage as a list of keys and texts
--     Scenarios      tools/scenarios.ts; Laws and Runs are about the storage
--     Migration      tools/migrate-scenarios.ts, use-migrate-scenarios.ts; Lossless: when requests fail;
--                    Complete: when none does
--     Reprice        dashboard/reprice-preview.ts, guardrail-coverage.ts, bounds-validation.ts,
--                    price-delta.ts, reprice-filter.ts; Bounds: the preview; Lists: the lists
--     Attribution    dashboard/attribution-breakdown.ts, attribution-insight.ts, change-log-summary.ts;
--                    Totals, Log and Rankings are about them
--     Domains        dashboard/group-by-domain.ts; Partition: the pairings of the groups;
--                    Columns: their gap and their last check,
--                    which Newest takes from sorted texts
--     Billing        billing/intent.ts, billing/checkout.ts and hooks/use-resume-intent.ts; Once: which
--                    intents are acted on
--     Api            apiFetch of api.ts, formatApiError of toast.ts; Errors: what is shown
--     Shipping       calcShipping of tools/shipping.ts; Rates: tools/shipping-rates.ts; Offers: the
--                    rates that it compares; Bulk: calcBulkShipment and its Crossover
--   Common           shared names, Boolean tests, lists, stable sorting, texts and their prefixes, integers
--
-- State is passed explicitly. A method of the proxy manager is one step, since it has no `await`.
-- A dispatcher is cut at each `await`: `advance` sends one command, and `interleave` runs
-- dispatchers in the order of an arbitrary schedule. The other workers run each as one sequence
-- of commands. A time is a natural number of milliseconds, read once per step; a token of a
-- bucket is counted in units of 1 / windowMs, so the arithmetic is exact; a price is a whole
-- number of some smallest unit, and the rounding of floating point is left out. Keys of Redis are
-- the templates of the sources with the parts that are filled in, also where the source hashes
-- them. No key of Redis expires by itself in the model, and a statement that depends on it says
-- so. In Web, amounts are whole cents, weights are hundredths of a pound and localStorage is a
-- value that every call takes and returns. What JSON does to a value is a record of two functions
-- that the definitions take; what a statement needs of them is a hypothesis, and the tests give
-- an instance. What cheerio and a regular expression with a selector find in a page is an
-- argument.
--
-- The loops of the sources are recursion on lists. The polling of a CAPTCHA is recursion on the
-- twelve polls that the source allows, and the search for the crossover of freight on the ten
-- thousand units that the source allows, so there is no fuel.
--
-- Not modelled: the selectors and regular expressions of domains/, the life cycle of browsers,
-- connections, logging, the operations views but for their guard, the Python service of
-- specter-api; of specter-web the pages and components, the functions of api.ts that only name an
-- address, the scripts of third parties, texts and formatting, and the calculators of lib/tools
-- other than the shipping one.
pub mod Common
pub mod Ops
pub mod Proxy
pub mod Rate
pub mod Redis
pub mod Schedule
pub mod Scrape
pub mod Web
