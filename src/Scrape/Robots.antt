-- ===== src/Scrape/Robots.antt =====
-- workers/robots.ts: the robots.txt of a domain, cached for a day. The package robots-parser is a
-- parameter: the crawl delay of a text, here in milliseconds, and its word on a path, which may be
-- missing. The answer to the request is an argument, `none` for a failure.
use new_specter.Redis.{
  Redis, robots_txt, crawl_delay_config, text, integer, price_text, fingerprint,
}
use Prim.Native.Char.{code}
use new_specter.Common.{
  ℕ, zero, suc, ◌*◌, String, ◌≡◌, refl, ap, ◌∙◌, inl, inr, Bool, true, false, Option, none, some,
  ◌==◌, if◌then◌else◌, Option-cases,
}

abbrev pub ttl_seconds : ℕ
ttl_seconds = 86_400

pub record RobotsReply : Type 0 where
  pub status : ℕ
  pub body : String

abbrev pub text_of : Option RobotsReply → String
text_of none = ""
text_of (some r) = if r.status == 200 then r.body else ""

-- `urlPath.startsWith('/') ? urlPath : '/' + urlPath`.
unfoldable pub normalised_path : String → String
normalised_path String.[] = "/"
normalised_path (String.◌∷◌ c s) =
    if code c == b'/' then String.◌∷◌ c s else String.◌∷◌ "/" (String.◌∷◌ c s)

module _ (𝓡 : Redis) (crawl_delay_in : String → Option ℕ)
    (word_on : String → String → String → Option Bool) where
  open 𝓡 use {State, get, set, get-set, get-set_ne}

  -- What the call has: the text, whether it was fetched, and Redis after it.
  pub record Checker : Type 0 where
    pub robots : String
    pub fetched : Bool
    pub redis : State

  unfoldable pub keep_crawl_delay : State → String → String → State
  keep_crawl_delay s domain robots = elim (crawl_delay_in robots) [
    | some (suc ms) ↦ set s (crawl_delay_config domain) (integer (suc ms)) (ttl_seconds * 1000)
    | _ ↦ s
  ]

  -- A cached value is a text: nothing else is written to the key.
  unfoldable pub get_robots_checker : State → String → Option RobotsReply → Checker
  unfolding keep_crawl_delay
  get_robots_checker s domain reply = elim (get s (robots_txt domain)) [
    | some (text t) ↦ record { robots = t; fetched = false; redis = keep_crawl_delay s domain t }
    | _ ↦
        let t = text_of reply in
        let s₁ = set s (robots_txt domain) (text t) (ttl_seconds * 1000) in
        record { robots = t; fetched = true; redis = keep_crawl_delay s₁ domain t }
  ]

  -- The word of a text on a path; a path that it does not mention is allowed.
  unfoldable pub allows : String → String → String → Bool
  unfolding normalised_path
  allows robots domain url_path = elim (word_on robots domain (normalised_path url_path)) [
    | some false ↦ false
    | _ ↦ true
  ]

  unfoldable pub is_allowed : Checker → String → String → Bool
  unfolding allows
  is_allowed c domain url_path = allows c.robots domain url_path

  keep_crawl_delay-get :
      (s : State) (domain robots : String)
      → get (keep_crawl_delay s domain robots) (robots_txt domain) ≡ get s (robots_txt domain)
  unfolding keep_crawl_delay
  keep_crawl_delay-get s domain robots = elim (Option-cases (crawl_delay_in robots)) [
    | inl e ↦ rw (e, keep_crawl_delay) refl
    | inr (zero, e) ↦ rw (e, keep_crawl_delay) refl
    | inr (suc ms, e) ↦
        rw (e, keep_crawl_delay)
          (get-set_ne s (crawl_delay_config domain) (robots_txt domain) (integer (suc ms))
            (ttl_seconds * 1000) (λ f. cc))
  ]

  stored :
      (s : State) (domain : String) (reply : Option RobotsReply)
      → let c = get_robots_checker s domain reply in
        get c.redis (robots_txt domain) ≡ some (text c.robots)
  unfolding get_robots_checker
  stored s domain reply =
      let t = text_of reply in
      let s₁ = set s (robots_txt domain) (text t) (ttl_seconds * 1000) in
      let fresh =
        keep_crawl_delay-get s₁ domain t
        ∙ get-set s (robots_txt domain) (text t) (ttl_seconds * 1000) in
      elim (Option-cases (get s (robots_txt domain))) [
        | inl e ↦ rw (e, get_robots_checker) fresh
        | inr (text u, e) ↦ rw (e, get_robots_checker) (keep_crawl_delay-get s domain u ∙ e)
        | inr (integer n, e) ↦ rw (e, get_robots_checker) fresh
        | inr (price_text n, e) ↦ rw (e, get_robots_checker) fresh
        | inr (fingerprint n b, e) ↦ rw (e, get_robots_checker) fresh
      ]

  reused :
      (s : State) (domain t : String) (reply : Option RobotsReply)
      → get s (robots_txt domain) ≡ some (text t)
      → let c = get_robots_checker s domain reply in (c.fetched ≡ false) × (c.robots ≡ t)
  unfolding get_robots_checker
  reused s domain t reply e = rw (e, get_robots_checker) (refl, refl)

  -- While the cached text lives, a second check of a domain fetches nothing and says the same of
  -- every path as the first, whatever the network would answer.
  pub checked_once :
      (s : State) (domain url_path : String) (reply later : Option RobotsReply)
      → let c = get_robots_checker s domain reply in
        let c' = get_robots_checker c.redis domain later in
        (c'.fetched ≡ false) × (is_allowed c' domain url_path ≡ is_allowed c domain url_path)
  unfolding is_allowed
  checked_once s domain url_path reply later =
      let c = get_robots_checker s domain reply in
      let c' = get_robots_checker c.redis domain later in
      let r = reused c.redis domain c.robots later (stored s domain reply) in
      (r.0, ap (λ t. allows t domain url_path) r.1)
