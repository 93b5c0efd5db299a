-- ===== src/Web/Share/Rejects.antt =====
-- tools/share.ts: the texts that decodeShareState refuses.
use mathlib.Core.List.{append_assoc}
use new_specter.Web.Share.Base64.{atob, value_of, groups, strip_one, is_space}
use new_specter.Web.Share.Digits.{is_digit, value_of-foreign}
use new_specter.Web.Share.RoundTrip.{is_url_char, atob-whole, spaces_kept, strip_two_pads}
use new_specter.Web.Share.{Codec, from_url, is_padding, repeated, pad_text, decode_share_state}
use new_specter.Common.{
  ℕ, ◌+◌, ◌-◌, ◌*◌, ◌/◌, ◌%◌, ◌≡◌, refl, ◌∙◌, ◌⊎◌, inl, inr, Bool, true, false, not, ◌&&◌, ◌||◌,
  Option, none, some, List, [], ◌∷◌, ◌++◌, map, arith, ◌==◌, Bool-cases, is_some, ◌>>=◌, length,
  any_of, all_of, filter_by, length-append, any_of-append,
}

abbrev is_no_digit : ℕ → Bool
is_no_digit c = not (is_digit c)

-- Neither a digit of base64, nor padding, nor white space that `atob` skips.
abbrev pub is_foreign : ℕ → Bool
is_foreign c = not (is_digit c || is_padding c || is_space c)

is_some-value_of : (c : ℕ) → is_some (value_of c) ≡ is_digit c
unfolding value_of
is_some-value_of c = ground arith

four_digits :
    (x y z w : Option ℕ) (r : Option (List ℕ))
    → (is_some x && is_some y && is_some z && is_some w && is_some r) ≡ false
    → (x >>= λ x. y >>= λ y. z >>= λ z. w >>= λ w.
        r >>= λ bytes. some ((x * 4 + y / 16) ∷ (y % 16 * 16 + z / 4) ∷ (z % 4 * 64 + w) ∷ bytes))
      ≡ none
four_digits none y z w r h = refl
four_digits (some x) none z w r h = refl
four_digits (some x) (some y) none w r h = refl
four_digits (some x) (some y) (some z) none r h = refl
four_digits (some x) (some y) (some z) (some w) none h = refl
four_digits (some x) (some y) (some z) (some w) (some r) h = cc

groups-none : (t : List ℕ) → any_of is_no_digit t ≡ true → groups t ≡ none
unfolding groups
groups-none [] h = cc
groups-none (a ∷ []) h = refl
groups-none (a ∷ b ∷ []) h = ground (arith, value_of-foreign a, value_of-foreign b)
groups-none (a ∷ b ∷ c ∷ []) h =
    ground (arith, value_of-foreign a, value_of-foreign b, value_of-foreign c)
groups-none (a ∷ b ∷ c ∷ d ∷ rest) h =
    four_digits (value_of a) (value_of b) (value_of c) (value_of d) (groups rest) (
      ground (
        arith,
        is_some-value_of a,
        is_some-value_of b,
        is_some-value_of c,
        is_some-value_of d,
        groups-none rest,
      ))

foreign_is_no_digit : (t : List ℕ) → any_of is_foreign t ≡ true → any_of is_no_digit t ≡ true
foreign_is_no_digit [] h = cc
foreign_is_no_digit (c ∷ t) h = ground (arith, foreign_is_no_digit t)

strip_one-foreign :
    (t : List ℕ) → any_of is_foreign t ≡ true → any_of is_foreign (strip_one t) ≡ true
unfolding strip_one
strip_one-foreign [] h = cc
strip_one-foreign (c ∷ []) h = ground arith
strip_one-foreign (c ∷ d ∷ rest) h = ground (arith, strip_one-foreign (d ∷ rest))

filter-foreign :
    (t : List ℕ)
    → any_of is_foreign t ≡ true
    → any_of is_foreign (filter_by (λ c. not (is_space c)) t) ≡ true
filter-foreign [] h = cc
filter-foreign (c ∷ t) h = ground (arith, filter-foreign t)

atob-foreign : (t : List ℕ) → any_of is_foreign t ≡ true → atob t ≡ none
unfolding atob
atob-foreign t h =
    let u : List ℕ = filter_by (λ c. not (is_space c)) t in
    let f = filter-foreign t h in
    let s = strip_one-foreign (strip_one u) (strip_one-foreign u f) in
    elim (Bool-cases (length u % 4 == 0)) [
      | inl e ↦
          rw e (
            groups-none (strip_one (strip_one u)) (foreign_is_no_digit (strip_one (strip_one u)) s))
      | inr e ↦ rw e (groups-none u (foreign_is_no_digit u f))
    ]

-- No character of a link's text, of base64, of padding or of white space.
abbrev pub is_unreadable : ℕ → Bool
is_unreadable c = not (is_url_char c || is_digit c || is_padding c || is_space c)

map-foreign :
    (t : List ℕ) → any_of is_unreadable t ≡ true → any_of is_foreign (map from_url t) ≡ true
unfolding from_url
map-foreign [] h = cc
map-foreign (c ∷ t) h = ground (arith, map-foreign t)

pad_text-foreign : (t : List ℕ) → any_of is_foreign t ≡ true → any_of is_foreign (pad_text t) ≡ true
unfolding pad_text
pad_text-foreign t h = ground (arith, any_of-append is_foreign t (repeated (4 - length t % 4) b'='))

map-digits :
    (t : List ℕ)
    → all_of is_url_char t ≡ true
    → (all_of is_digit (map from_url t) ≡ true) × (length (map from_url t) ≡ length t)
unfolding from_url
map-digits [] h = (refl, refl)
map-digits (c ∷ t) h = ground (arith, map-digits t)

-- Three pads are one too many, and the one that stays is no digit.
atob-three_pads :
    (t : List ℕ) → all_of is_digit t ≡ true → length t % 4 ≡ 1 → atob (pad_text t) ≡ none
unfolding pad_text repeated
atob-three_pads t h l =
    let pads : List ℕ = b'=' ∷ b'=' ∷ b'=' ∷ [] in
    rw l (
      atob-whole (t ++ pads) (t ++ (b'=' ∷ [])) (spaces_kept t pads h refl)
        (omega (arith, length-append t pads))
        (rw append_assoc at (strip_two_pads (t ++ (b'=' ∷ []))))
      ∙ groups-none (t ++ (b'=' ∷ [])) (ground (arith, any_of-append is_no_digit t (b'=' ∷ []))))

module _ {S : Type 0} (codec : Codec S) where
  -- decodeShareState answers null on a text with a character that is neither of a link's text nor
  -- of base64 nor white space, and on one whose length leaves the remainder one by four, as a link
  -- that was cut may have it.
  pub decode_rejects :
      (t : List ℕ)
      → (any_of is_unreadable t ≡ true) ⊎ ((all_of is_url_char t ≡ true) × (length t % 4 ≡ 1))
      → decode_share_state codec t ≡ none
  unfolding decode_share_state
  decode_rejects t (inl h) =
      rw
        (atob-foreign (pad_text (map from_url t))
          (pad_text-foreign (map from_url t) (map-foreign t h)))
        refl
  decode_rejects t (inr (h, l)) =
      let (d, e) = map-digits t h in rw (atob-three_pads (map from_url t) d (omega arith)) refl
