-- ===== src/Scrape/Captcha.antt =====
-- workers/captcha.ts, workers/captcha-solver.ts and workers/playwright.ts, lines 284-324: a CAPTCHA
-- is solved away from the browser. A key holds the page's site key and URL where the source holds
-- their SHA-1 digest.
pub mod Claims
pub mod Polling
use new_specter.Redis.{Redis, Key, captcha_token, captcha_pending, Value, text}
use new_specter.Schedule.Dispatch.{held_text}
use Prim.Native.Char.{code}
use new_specter.Common.{is_prefix_of}
use new_specter.Common.{
  ℕ, zero, suc, ◌+◌, ◌-◌, ◌*◌, ◌/◌, ◌%◌, ◌^◌, ◌≤◌, ◌<◌, min, max, String, ◌≡◌, refl, sym, ap, subst,
  ◌∙◌, fun_ext, ◌≢◌, ◌↔◌, ◌⊎◌, inl, inr, Bool, true, false, not, ◌&&◌, ◌||◌, Option, none, some,
  List, [], ◌∷◌, ◌++◌, map, arith, ℕ_discrete, ltb, leb, ◌==◌, if◌then◌else◌, ltb→lt, lt→ltb,
  leb→le, le→leb, ==_iff, Bool-cases, Option-cases, is_some, or_else, length, get_or, any_of,
  all_of, filter_by, length-append, any_of-append, get_or-any_of, any_of-false, all_of-get_or,
  all_of-filter_by, length-filter_by-le, str_eq, str_eq_iff, str_eq_refl, str_eq_ne, includes,
  includes-any_of, codes, contains, matches_ci,
}

pub data CaptchaType : Type 0 where
  recaptcha hcaptcha cloudflare : CaptchaType

abbrev pub captcha_token_ttl_seconds : ℕ
captcha_token_ttl_seconds = 110

abbrev pub captcha_pending_ttl_seconds : ℕ
captcha_pending_ttl_seconds = 90

unfoldable pub solve_method_for : CaptchaType → Option String
solve_method_for recaptcha = some "userrecaptcha"
solve_method_for hcaptcha = some "hcaptcha"
solve_method_for cloudflare = none

unfoldable pub response_field_for : CaptchaType → Option String
response_field_for recaptcha = some "g-recaptcha-response"
response_field_for hcaptcha = some "h-captcha-response"
response_field_for cloudflare = none

abbrev pub type_name : CaptchaType → String
type_name recaptcha = "recaptcha"
type_name hcaptcha = "hcaptcha"
type_name cloudflare = "cloudflare"

unfoldable pub detect_captcha_in_content : String → String → Option CaptchaType
unfolding contains
detect_captcha_in_content url content =
    if contains content "g-recaptcha"
    then some recaptcha
    else if contains content "h-captcha" || contains content "hcaptcha.com"
    then some hcaptcha
    else if contains content "Just a moment"
        || contains content "cf-challenge"
        || contains content "cf-turnstile"
        || contains url "/cdn-cgi/challenge"
    then some cloudflare
    else none

-- The text before the next quotation mark, if there is one.
abbrev pub before_quote : String → Option String
before_quote String.[] = none
before_quote (String.◌∷◌ c s) =
    let rest = before_quote s in
    if code c == 34
    then some String.[]
    else elim rest [ some t ↦ some (String.◌∷◌ c t) | none ↦ none ]

abbrev pub drop_chars : ℕ → String → String
drop_chars zero s = s
drop_chars (suc n) String.[] = String.[]
drop_chars (suc n) (String.◌∷◌ c s) = drop_chars n s

-- `content.match(/data-sitekey="([^"]+)"/)`, at its first match.
unfoldable pub extract_site_key : String → Option String
extract_site_key String.[] = none
extract_site_key (String.◌∷◌ c s) =
    let later = extract_site_key s in
    if is_prefix_of (codes "data-sitekey=\"") (codes (String.◌∷◌ c s))
    then elim (before_quote (drop_chars 14 (String.◌∷◌ c s))) [
      | some String.[] ↦ later
      | some key ↦ some key
      | none ↦ later
    ]
    else later

abbrev pub captcha_token_key : CaptchaType → String → String → Key
captcha_token_key type site_key page_url = captcha_token (type_name type) site_key page_url

abbrev pub captcha_pending_key : CaptchaType → String → String → Key
captcha_pending_key type site_key page_url = captcha_pending (type_name type) site_key page_url

pub record CaptchaSolveJob : Type 0 where
  pub type : CaptchaType
  pub site_key : String
  pub page_url : String
  pub domain : String

pub data CaptchaOutcome : Type 0 where
  clear : CaptchaOutcome
  unsolvable : CaptchaOutcome
  offloaded : ℕ → CaptchaType → CaptchaOutcome

-- A reply of 2captcha to a submission or a poll.
pub record SolverReply : Type 0 where
  pub status : ℕ
  pub request : String

-- The polls that are left, from the replies still to come; `none` is a request that failed.
unfoldable pub poll : ℕ → (ℕ → Option SolverReply) → Option String
poll zero replies = none
poll (suc n) replies =
    let later = poll n (λ i. replies (suc i)) in
    elim (replies 0) [
      | none ↦ none
      | some r ↦
          if r.status == 1
          then some r.request
          else if str_eq r.request "CAPCHA_NOT_READY"
          then later
          else none
    ]

abbrev pub poll_limit : ℕ
poll_limit = 12

-- `fetchTwoCaptchaToken`, from the replies to the submission and to the polls.
unfoldable pub fetch_two_captcha_token :
    String → Option SolverReply → (ℕ → Option SolverReply) → Option String
unfolding poll
fetch_two_captcha_token api_key submit replies = if str_eq api_key "" then none else elim submit [
  | none ↦ none
  | some r ↦ if r.status == 0 then none else poll poll_limit replies
]

abbrev pub captcha_retry_delay_ms : ℕ
captcha_retry_delay_ms = 65_000

module _ (𝓡 : Redis) where
  open 𝓡 use {State, get, set, set_nx}

  pub record CaptchaWorld : Type 0 where
    pub redis : State
    pub solves : List CaptchaSolveJob

  unfoldable pub read_cached_token : State → CaptchaType → String → String → Option String
  read_cached_token s type site_key page_url =
      held_text (get s (captcha_token_key type site_key page_url))

  unfoldable pub cache_token : State → CaptchaType → String → String → String → State
  cache_token s type site_key page_url token =
      set s (captcha_token_key type site_key page_url) (text token)
        (captcha_token_ttl_seconds * 1000)

  -- The claim of a solve; who wins it enqueues the job.
  unfoldable pub claim_solve :
      CaptchaWorld → String → CaptchaType → String → String → CaptchaOutcome × CaptchaWorld
  claim_solve w domain type site_key page_url =
      let (won, s) =
        set_nx w.redis (captcha_pending_key type site_key page_url) (text "1")
          (captcha_pending_ttl_seconds * 1000) in
      let job : CaptchaSolveJob = record {
        type = type;
        site_key = site_key;
        page_url = page_url;
        domain = domain;
      } in
      (
        offloaded captcha_retry_delay_ms type,
        record { redis = s; solves = if won then job ∷ w.solves else w.solves },
      )

  -- `handleCaptcha` on a page; `clears` says whether the cached token, once injected, clears it.
  unfoldable pub handle_captcha :
      CaptchaWorld → String → String → String → Bool → CaptchaOutcome × CaptchaWorld
  unfolding detect_captcha_in_content solve_method_for extract_site_key read_cached_token
      claim_solve
  handle_captcha w domain page_url content clears =
      elim (detect_captcha_in_content page_url content) [
        | none ↦ (clear, w)
        | some type ↦
            if not (is_some (solve_method_for type))
            then (unsolvable, w)
            else elim (extract_site_key content) [
              | none ↦ (unsolvable, w)
              | some site_key ↦
                  if is_some (read_cached_token w.redis type site_key page_url) && clears
                  then (clear, w)
                  else claim_solve w domain type site_key page_url
            ]
      ]

  -- The solver worker on a job, from the token that 2captcha gave: `none` is the error that makes
  -- the queue try again.
  unfoldable pub captcha_solver :
      CaptchaWorld → CaptchaSolveJob → Option String → Option Bool × CaptchaWorld
  unfolding solve_method_for cache_token
  captcha_solver w job token =
      if not (is_some (solve_method_for job.type)) then (some false, w) else elim token [
        | none ↦ (none, w)
        | some t ↦ if str_eq t "" then (none, w) else (
          some true,
          record w { redis = cache_token w.redis job.type job.site_key job.page_url t },
        )
      ]
