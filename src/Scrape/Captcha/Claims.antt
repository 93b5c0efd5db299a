-- ===== src/Scrape/Captcha/Claims.antt =====
-- workers/playwright.ts, lines 286-324, and workers/captcha-solver.ts: claims, solves and tokens.
use new_specter.Redis.{Redis, Value, text}
use new_specter.Schedule.Dispatch.{held_text}
use new_specter.Schedule.Dispatch.Lock.{held_text-some}
use new_specter.Scrape.Captcha.{
  CaptchaType, type_name, CaptchaSolveJob, clear, CaptchaWorld, handle_captcha, captcha_solver,
  claim_solve, cache_token, read_cached_token, detect_captcha_in_content, solve_method_for,
  extract_site_key, captcha_pending_key, captcha_token_key, captcha_pending_ttl_seconds,
  captcha_token_ttl_seconds,
}
use new_specter.Common.{
  ℕ, ◌*◌, ◌≤◌, String, ◌≡◌, refl, sym, ap, subst, ◌∙◌, ◌≢◌, ◌⊎◌, inl, inr, Bool, true, false, ◌&&◌,
  Option, none, some, List, [], ◌∷◌, arith, Bool-cases, Option-cases, is_some, length, filter_by,
  str_eq, str_eq_iff, str_eq_ne,
}

-- What happens to a page: a browser meets it, or the solver works on a job.
pub data Event : Type 0 where
  meets : String → String → String → Bool → Event
  solves : CaptchaSolveJob → Option String → Event

-- The jobs that solve the page.
abbrev pub solves_page : CaptchaType → String → String → CaptchaSolveJob → Bool
solves_page type site_key page_url j =
    str_eq (type_name j.type) (type_name type)
    && str_eq j.site_key site_key
    && str_eq j.page_url page_url

module _ (𝓡 : Redis) where
  open 𝓡 use {State, get, set, set_nx, get-set, get-set_ne, set_nx-free, set_nx-held}

  unfoldable pub happens : CaptchaWorld 𝓡 → Event → CaptchaWorld 𝓡
  unfolding handle_captcha captcha_solver
  happens w (meets domain page_url content clears) =
      (handle_captcha 𝓡 w domain page_url content clears).1
  happens w (solves job token) = (captcha_solver 𝓡 w job token).1

  unfoldable pub happen : CaptchaWorld 𝓡 → List Event → CaptchaWorld 𝓡
  unfolding happens
  happen w [] = w
  happen w (e ∷ es) = happen (happens w e) es

  module _ (type : CaptchaType) (site_key page_url : String) where
    abbrev pub solve_count : CaptchaWorld 𝓡 → ℕ
    solve_count w = length (filter_by (solves_page type site_key page_url) w.solves)

    -- A page without a claim has no job, and one with a claim has at most one.
    abbrev pub Claimed : CaptchaWorld 𝓡 → Type 0
    Claimed w =
        ((get w.redis (captcha_pending_key type site_key page_url) ≡ none) × (solve_count w ≡ 0))
        ⊎ ((v : Value) × (get w.redis (captcha_pending_key type site_key page_url) ≡ some v)
            × (solve_count w ≤ 1))

    same_page :
        (j : CaptchaSolveJob)
        → solves_page type site_key page_url j ≡ true
        → captcha_pending_key j.type j.site_key j.page_url
          ≡ captcha_pending_key type site_key page_url
    same_page j e = ground (
      arith,
      str_eq_iff (type_name j.type) (type_name type),
      str_eq_iff j.site_key site_key,
      str_eq_iff j.page_url page_url,
    )

    other_page :
        (j : CaptchaSolveJob)
        → solves_page type site_key page_url j ≡ false
        → captcha_pending_key j.type j.site_key j.page_url
          ≢ captcha_pending_key type site_key page_url
    other_page j e same = ground (
      arith,
      str_eq_iff (type_name j.type) (type_name type),
      str_eq_iff j.site_key site_key,
      str_eq_iff j.page_url page_url,
    )

    unclaimed :
        (w : CaptchaWorld 𝓡)
        → get w.redis (captcha_pending_key type site_key page_url) ≡ none
        → Claimed w
        → solve_count w ≡ 0
    unclaimed w e (inl (f, z)) = z
    unclaimed w e (inr (v, f, l)) = ground arith

    -- A write to another page's claim and a job for another page.
    Claimed-other :
        (w w' : CaptchaWorld 𝓡)
        → get w'.redis (captcha_pending_key type site_key page_url)
          ≡ get w.redis (captcha_pending_key type site_key page_url)
        → solve_count w' ≡ solve_count w
        → Claimed w
        → Claimed w'
    Claimed-other w w' e n (inl (f, z)) = inl (e ∙ f, n ∙ z)
    Claimed-other w w' e n (inr (v, f, l)) = inr (v, e ∙ f, omega arith)

    claim_solve-Claimed :
        (w : CaptchaWorld 𝓡) (domain : String) (t : CaptchaType) (k u : String)
        → Claimed w
        → Claimed (claim_solve 𝓡 w domain t k u).1
    unfolding claim_solve
    claim_solve-Claimed w domain t k u c =
        let key = captcha_pending_key t k u in
        let ttl = captcha_pending_ttl_seconds * 1000 in
        let job : CaptchaSolveJob = record {
          type = t;
          site_key = k;
          page_url = u;
          domain = domain;
        } in
        elim (Option-cases (get w.redis key)) [
          | inr (v, held) ↦ rw (set_nx-held w.redis key (text "1") v ttl held, claim_solve) c
          | inl free ↦
              rw (set_nx-free w.redis key (text "1") ttl free, claim_solve)
                (elim (Bool-cases (solves_page type site_key page_url job)) [
                  | inl same ↦
                      let k≡ = same_page job same in
                      let zero_before = unclaimed w (ap (get w.redis) (sym k≡) ∙ free) c in
                      inr (
                        text "1",
                        subst (λ j. get (set w.redis key (text "1") ttl) j ≡ some (text "1")) k≡
                            (get-set w.redis key (text "1") ttl),
                        ground arith,
                      )
                  | inr other ↦
                      Claimed-other w
                        (record { redis = set w.redis key (text "1") ttl; solves = job ∷ w.solves })
                        (get-set_ne w.redis key (captcha_pending_key type site_key page_url)
                          (text "1") ttl (other_page job other))
                        (ground arith) c
                ])
        ]

    handle_captcha-Claimed :
        (w : CaptchaWorld 𝓡) (domain u content : String) (clears : Bool)
        → Claimed w
        → Claimed (handle_captcha 𝓡 w domain u content clears).1
    unfolding handle_captcha
    handle_captcha-Claimed w domain u content clears c =
        elim (Option-cases (detect_captcha_in_content u content)) [
          | inl e ↦ rw (e, handle_captcha) c
          | inr (t, e) ↦
              rw (e, handle_captcha)
                (elim (Bool-cases (is_some (solve_method_for t))) [
                  | inr f ↦ rw f c
                  | inl f ↦ rw f (elim (Option-cases (extract_site_key content)) [
                    | inl g ↦ rw g c
                    | inr (k, g) ↦
                        rw g
                          (elim (Bool-cases
                            (is_some (read_cached_token 𝓡 w.redis t k u) && clears)) [
                              | inl h ↦ rw h c
                              | inr h ↦ rw h (claim_solve-Claimed w domain t k u c)
                            ])
                  ])
                ])
        ]

    cache_token-Claimed :
        (w : CaptchaWorld 𝓡) (job : CaptchaSolveJob) (token : String)
        → Claimed w
        → Claimed
            (record w { redis = cache_token 𝓡 w.redis job.type job.site_key job.page_url token })
    unfolding cache_token
    cache_token-Claimed w job token c =
        let key = captcha_token_key job.type job.site_key job.page_url in
        let ttl = captcha_token_ttl_seconds * 1000 in
        Claimed-other w (record w { redis = set w.redis key (text token) ttl })
          (get-set_ne w.redis key (captcha_pending_key type site_key page_url) (text token) ttl
            (λ e. cc))
          refl c

    captcha_solver-Claimed :
        (w : CaptchaWorld 𝓡) (job : CaptchaSolveJob) (token : Option String)
        → Claimed w
        → Claimed (captcha_solver 𝓡 w job token).1
    unfolding captcha_solver
    captcha_solver-Claimed w job none c = elim (Bool-cases (is_some (solve_method_for job.type))) [
      | inr f ↦ rw (f, captcha_solver) c
      | inl f ↦ rw (f, captcha_solver) c
    ]
    captcha_solver-Claimed w job (some t) c =
        elim (Bool-cases (is_some (solve_method_for job.type))) [
          | inr f ↦ rw (f, captcha_solver) c
          | inl f ↦
              rw (f, captcha_solver)
                (elim (Bool-cases (str_eq t "")) [
                  | inl g ↦ rw g c
                  | inr g ↦ rw g (cache_token-Claimed w job t c)
                ])
        ]

    happens-Claimed : (w : CaptchaWorld 𝓡) (e : Event) → Claimed w → Claimed (happens w e)
    unfolding happens
    happens-Claimed w (meets domain u content clears) c =
        handle_captcha-Claimed w domain u content clears c
    happens-Claimed w (solves job token) c = captcha_solver-Claimed w job token c

    happen-Claimed : (w : CaptchaWorld 𝓡) (es : List Event) → Claimed w → Claimed (happen w es)
    unfolding happen
    happen-Claimed w [] c = c
    happen-Claimed w (e ∷ es) c = happen-Claimed (happens w e) es (happens-Claimed w e c)

    Claimed-count : (w : CaptchaWorld 𝓡) → Claimed w → solve_count w ≤ 1
    Claimed-count w (inl (e, z)) = omega arith
    Claimed-count w (inr (v, e, l)) = l

    -- From a page that nobody has claimed or enqueued, whatever browsers meet and whatever the
    -- solver does, at most one job to solve the page is enqueued. No claim expires meanwhile.
    pub at_most_one_solve :
        (w : CaptchaWorld 𝓡) (es : List Event)
        → get w.redis (captcha_pending_key type site_key page_url) ≡ none
        → solve_count w ≡ 0
        → solve_count (happen w es) ≤ 1
    at_most_one_solve w es e z = Claimed-count (happen w es) (happen-Claimed w es (inl (e, z)))

  cached :
      (s : State) (t : CaptchaType) (k u token : String)
      → token ≢ ""
      → read_cached_token 𝓡 (cache_token 𝓡 s t k u token) t k u ≡ some token
  unfolding read_cached_token cache_token
  cached s t k u token n =
      ap held_text
        (get-set s (captcha_token_key t k u) (text token) (captcha_token_ttl_seconds * 1000))
      ∙ held_text-some token n

  -- After the solver cached a token for the page that a browser met, the next visit whose page the
  -- token clears goes on without claiming or enqueueing anything. The token does not expire before.
  pub solved_page_clears :
      (w : CaptchaWorld 𝓡) (job : CaptchaSolveJob) (content token : String)
      → token ≢ ""
      → detect_captcha_in_content job.page_url content ≡ some job.type
      → is_some (solve_method_for job.type) ≡ true
      → extract_site_key content ≡ some job.site_key
      → let w' = (captcha_solver 𝓡 w job (some token)).1 in
        handle_captcha 𝓡 w' job.domain job.page_url content true ≡ (clear, w')
  unfolding captcha_solver handle_captcha
  solved_page_clears w job content token n d m k =
      let c = cached w.redis job.type job.site_key job.page_url token n in
      rw (m, captcha_solver)
        (rw (str_eq_ne token "" n) (rw (d, handle_captcha) (rw m (rw k (rw c refl)))))
