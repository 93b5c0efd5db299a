-- ===== src/Scrape/Captcha/Polling.antt =====
-- workers/captcha.ts, lines 107-152: the polling of 2captcha.
use new_specter.Scrape.Captcha.{SolverReply, poll, fetch_two_captcha_token}
use new_specter.Common.{
  ℕ, zero, suc, ◌<◌, String, ◌≡◌, sym, ◌∙◌, ◌↔◌, inl, inr, Bool, true, false, not, ◌&&◌, Option,
  none, some, arith, ◌==◌, Bool-cases, Option-cases, str_eq,
}

-- The reply says to wait.
abbrev pub waits : Option SolverReply → Bool
waits none = false
waits (some r) = not (r.status == 1) && str_eq r.request "CAPCHA_NOT_READY"

-- The poll at index `i` is the first that does not say to wait, and it brings the token.
abbrev pub Brings : (ℕ → Option SolverReply) → ℕ → String → Type 0
Brings replies i token =
    ((j : ℕ) → j < i → waits (replies j) ≡ true)
    × ((r : SolverReply) × (replies i ≡ some r) × (r.status ≡ 1) × (r.request ≡ token))

poll_step :
    (n : ℕ) (replies : ℕ → Option SolverReply)
    → waits (replies 0) ≡ true
    → poll (suc n) replies ≡ poll n (λ i. replies (suc i))
unfolding poll
poll_step n replies h = ground arith

token_found :
    (n : ℕ) (replies : ℕ → Option SolverReply) (i : ℕ) (token : String)
    → i < n
    → Brings replies i token
    → poll n replies ≡ some token
unfolding poll
token_found zero replies i token l b = elim l [ ]
token_found (suc n) replies zero token l (w, (r, e, f, g)) = rw (e, poll) (ground arith)
token_found (suc n) replies (suc i) token l (w, (r, e, f, g)) =
    poll_step n replies (w 0 (omega arith))
    ∙ token_found n (λ j. replies (suc j)) i token (omega arith)
        ((λ j h. w (suc j) (omega arith)), (r, e, f, g))

below_zero : (j : ℕ) → ¬ (j < 0)
below_zero j l = omega arith

waits_shifted :
    (replies : ℕ → Option SolverReply) (i : ℕ)
    → waits (replies 0) ≡ true
    → ((j : ℕ) → j < i → waits (replies (suc j)) ≡ true)
    → (j : ℕ) → j < suc i
    → waits (replies j) ≡ true
waits_shifted replies i w ws zero l = w
waits_shifted replies i w ws (suc j) l = ws j (omega arith)

poll_stops :
    (n : ℕ) (replies : ℕ → Option SolverReply) (token : String)
    → waits (replies 0) ≡ false
    → poll (suc n) replies ≡ some token
    → (r : SolverReply) × (replies 0 ≡ some r) × (r.status ≡ 1) × (r.request ≡ token)
unfolding poll
poll_stops n replies token s e = elim (Option-cases (replies 0)) [
  | inl f ↦ ground arith
  | inr (r, f) ↦ (r, f, ground arith, ground arith)
]

poll-Brings :
    (n : ℕ) (replies : ℕ → Option SolverReply) (token : String)
    → poll n replies ≡ some token
    → (i : ℕ) × (i < n) × Brings replies i token
unfolding poll
poll-Brings zero replies token e = cc
poll-Brings (suc n) replies token e = elim (Bool-cases (waits (replies 0))) [
  | inl w ↦
      let (i, l, (ws, found)) =
        poll-Brings n (λ j. replies (suc j)) token (sym (poll_step n replies w) ∙ e) in
      (suc i, omega arith, (waits_shifted replies i w ws, found))
  | inr s ↦ (0, omega arith, ((λ j l. elim (below_zero j l) [ ]), poll_stops n replies token s e))
]

-- With a key and an accepted submission, the solver has a token exactly if, among the first twelve
-- polls, one brings it and all before say to wait.
pub token_exact :
    (api_key : String) (submitted : SolverReply) (replies : ℕ → Option SolverReply) (token : String)
    → str_eq api_key "" ≡ false
    → (submitted.status == 0) ≡ false
    → (fetch_two_captcha_token api_key (some submitted) replies ≡ some token)
      ↔ ((i : ℕ) × (i < 12) × Brings replies i token)
unfolding fetch_two_captcha_token
token_exact api_key submitted replies token k s =
    rw (k, fetch_two_captcha_token)
      (rw s (poll-Brings 12 replies token, λ b. token_found 12 replies b.0 token b.1 b.2))
