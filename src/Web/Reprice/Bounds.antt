-- ===== src/Web/Reprice/Bounds.antt =====
-- dashboard/reprice-preview.ts and bounds-validation.ts: the previewed price and the guardrails.
use new_specter.Web.Reprice.{
  RepriceSku, SignalType, raise, lower, hold, below, above, clamped, preview_of, reprice_preview,
  is_move, is_actionable, InputReading, unset, amount, not_a_number, negative, validate_bounds,
}
use new_specter.Common.{
  ℕ, ◌≡◌, refl, ◌↔◌, inl, inr, Bool, true, not, ◌&&◌, Option, none, some, arith, leb, Option-cases,
  is_some,
}

-- A price that no guardrail forbids.
abbrev pub allowed : Option ℕ → Option ℕ → Option ℕ → Bool
allowed f c none = true
allowed f c (some p) = not (below p f) && not (above p c)

-- The bound that is stored for an input.
abbrev pub bound_of : InputReading → Option ℕ
bound_of (amount n) = some n
bound_of _ = none

-- The two guardrails, where both are set, do not cross.
abbrev pub uncrossed : Option ℕ → Option ℕ → Bool
uncrossed (some f) (some c) = leb f c
uncrossed _ _ = true

validate_bounds-uncrossed :
    (f c : InputReading) → validate_bounds f c ≡ none → uncrossed (bound_of f) (bound_of c) ≡ true
unfolding validate_bounds
validate_bounds-uncrossed unset c h = refl
validate_bounds-uncrossed not_a_number c h = refl
validate_bounds-uncrossed negative c h = refl
validate_bounds-uncrossed (amount f) unset h = refl
validate_bounds-uncrossed (amount f) not_a_number h = refl
validate_bounds-uncrossed (amount f) negative h = refl
validate_bounds-uncrossed (amount f) (amount c) h = ground arith

-- What the preview makes of a suggestion: an allowed price, and the suggestion itself exactly where
-- that is allowed.
abbrev pub Respects : Option ℕ → Option ℕ → Option ℕ → Option ℕ → Type 0
Respects f c suggestion e =
    (allowed f c e ≡ true) × ((allowed f c suggestion ≡ true) ↔ (e ≡ suggestion))

clamped-Respects :
    (p : ℕ) (f c : Option ℕ)
    → uncrossed f c ≡ true
    → Respects f c (some p) (clamped p f c).effective_price
      × (is_some (clamped p f c).effective_price ≡ true)
unfolding clamped
clamped-Respects p none none h = ground arith
clamped-Respects p none (some c) h = ground arith
clamped-Respects p (some f) none h = ground arith
clamped-Respects p (some f) (some c) h = ground arith

-- The price of a suggestion that asks for a move.
abbrev pub move_price : SignalType → Option ℕ → Option ℕ
move_price hold p = none
move_price _ p = p

unfoldable pub suggested : RepriceSku → Option ℕ
suggested sku = elim sku.latest_suggestion [
  | none ↦ none
  | some s ↦ move_price s.type s.price_suggestion
]

preview_of-Respects :
    (t : SignalType) (p f c : Option ℕ)
    → uncrossed f c ≡ true
    → Respects f c (move_price t p) (preview_of t p f c).effective_price
      × (is_some (preview_of t p f c).effective_price ≡ (is_move t && is_some p))
unfolding preview_of
preview_of-Respects hold p f c h = ground arith
preview_of-Respects raise none f c h = ground arith
preview_of-Respects lower none f c h = ground arith
preview_of-Respects raise (some p) f c h = clamped-Respects p f c h
preview_of-Respects lower (some p) f c h = clamped-Respects p f c h

-- If the guardrails of a SKU are those of two inputs that passed the validation, then the previewed
-- price is within them, it is the suggested price exactly if that is within them, and there is one
-- exactly if the suggestion is actionable.
pub preview_within_bounds :
    (sku : RepriceSku) (f c : InputReading)
    → validate_bounds f c ≡ none
    → sku.floor_price ≡ bound_of f
    → sku.ceiling_price ≡ bound_of c
    → let e = (reprice_preview sku).effective_price in
      Respects (bound_of f) (bound_of c) (suggested sku) e × (is_some e ≡ is_actionable sku)
unfolding reprice_preview is_actionable suggested
preview_within_bounds sku f c v ef ec = elim (Option-cases sku.latest_suggestion) [
  | inl e ↦ rw (e, reprice_preview, suggested, is_actionable) (ground arith)
  | inr (s, e) ↦
      rw (e, reprice_preview, suggested, is_actionable, ef, ec)
        (preview_of-Respects s.type s.price_suggestion (bound_of f) (bound_of c)
          (validate_bounds-uncrossed f c v))
]
