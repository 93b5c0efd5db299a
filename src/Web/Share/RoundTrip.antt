-- ===== src/Web/Share/RoundTrip.antt =====
-- tools/share.ts: encoding followed by decoding.
use mathlib.Core.List.{append_assoc, append-nil}
use new_specter.Web.Share.Base64.{btoa, atob, digit, groups, strip_one, is_space}
use new_specter.Web.Share.Digits.{
  AllBytes, digits, is_digit, digit-is_digit, digits-is_digit, groups-digits,
}
use new_specter.Web.Share.{
  Codec, to_url, from_url, is_padding, url_text, repeated, pad_text, encode_share_state,
  decode_share_state,
}
use new_specter.Common.{
  ℕ, ◌+◌, ◌*◌, ◌/◌, ◌%◌, ◌<◌, ◌≡◌, refl, sym, ap, ◌∙◌, ◌≢◌, ◌⊎◌, inl, inr, Bool, true, false, not,
  ◌&&◌, ◌||◌, some, List, [], ◌∷◌, ◌++◌, map, arith, leb, ◌==◌, length, all_of, filter_by,
  length-append,
}

-- A character that a link carries as it is.
abbrev pub is_url_char : ℕ → Bool
is_url_char c =
    (leb b'A' c && leb c b'Z')
    || (leb b'a' c && leb c b'z')
    || (leb b'0' c && leb c b'9')
    || c == b'-'
    || c == b'_'

to_url-is_url_char : (c : ℕ) → is_digit c ≡ true → is_url_char (to_url c) ≡ true
unfolding to_url
to_url-is_url_char c h = ground arith

from_url-to_url : (c : ℕ) → is_digit c ≡ true → from_url (to_url c) ≡ c
unfolding to_url from_url
from_url-to_url c h = ground arith

to_url-kept : (n : ℕ) → n < 64 → is_padding (to_url (digit n)) ≡ false
to_url-kept n h = ground (arith, to_url-is_url_char (digit n) (digit-is_digit n h))

padding-dropped : is_padding (to_url b'=') ≡ true
unfolding to_url
padding-dropped = refl

url_text-digits : (bs : List ℕ) → AllBytes bs → url_text bs ≡ map to_url (digits bs)
unfolding url_text btoa digits
url_text-digits [] h = refl
url_text-digits (a ∷ []) h =
    rw (to_url-kept (a / 4) (omega arith), to_url-kept (a % 4 * 16) (omega arith), padding-dropped)
      refl
url_text-digits (a ∷ b ∷ []) h =
    rw
      (
        to_url-kept (a / 4) (omega arith),
        to_url-kept (a % 4 * 16 + b / 16) (omega arith),
        to_url-kept (b % 16 * 4) (omega arith),
        padding-dropped,
      )
      refl
url_text-digits (a ∷ b ∷ c ∷ rest) h =
    let ih = url_text-digits rest h.1.1.1 in
    rw
      (
        to_url-kept (a / 4) (omega arith),
        to_url-kept (a % 4 * 16 + b / 16) (omega arith),
        to_url-kept (b % 16 * 4 + c / 64) (omega arith),
        to_url-kept (c % 64) (omega arith),
      )
      (ground (arith, ih))

map-from_url : (ds : List ℕ) → all_of is_digit ds ≡ true → map from_url (map to_url ds) ≡ ds
map-from_url [] h = refl
map-from_url (d ∷ ds) h = ground (arith, from_url-to_url d, map-from_url ds)

map-is_url_char :
    (ds : List ℕ) → all_of is_digit ds ≡ true → all_of is_url_char (map to_url ds) ≡ true
map-is_url_char [] h = refl
map-is_url_char (d ∷ ds) h = ground (arith, to_url-is_url_char d, map-is_url_char ds)

length-digits : (bs : List ℕ) → length (digits bs) % 4 ≢ 1
unfolding digits
length-digits [] = omega arith
length-digits (a ∷ []) = omega arith
length-digits (a ∷ b ∷ []) = omega arith
length-digits (a ∷ b ∷ c ∷ rest) = omega (arith, length-digits rest)

filter-spaces :
    (t r : List ℕ)
    → all_of is_digit t ≡ true
    → filter_by (λ c. not (is_space c)) (t ++ r) ≡ t ++ filter_by (λ c. not (is_space c)) r
filter-spaces [] r h = refl
filter-spaces (c ∷ t) r h = ground (arith, filter-spaces t r)

strip_one-digits : (t : List ℕ) → all_of is_digit t ≡ true → strip_one t ≡ t
unfolding strip_one
strip_one-digits [] h = refl
strip_one-digits (c ∷ []) h = ground arith
strip_one-digits (c ∷ d ∷ rest) h = ground (arith, strip_one-digits (d ∷ rest))

strip_one-last : (t : List ℕ) → strip_one (t ++ (b'=' ∷ [])) ≡ t
unfolding strip_one
strip_one-last [] = refl
strip_one-last (c ∷ []) = refl
strip_one-last (c ∷ d ∷ rest) = ap (λ r. c ∷ r) (strip_one-last (d ∷ rest))

strip_two : (t : List ℕ) → all_of is_digit t ≡ true → strip_one (strip_one (t ++ (b'=' ∷ []))) ≡ t
strip_two t h = rw (strip_one-last t) (strip_one-digits t h)

pub strip_two_pads : (t : List ℕ) → strip_one (strip_one (t ++ (b'=' ∷ b'=' ∷ []))) ≡ t
strip_two_pads t =
    rw (sym (append_assoc t (b'=' ∷ []) (b'=' ∷ [])), strip_one-last (t ++ (b'=' ∷ [])))
      (strip_one-last t)

pub spaces_kept :
    (t r : List ℕ)
    → all_of is_digit t ≡ true
    → all_of is_padding r ≡ true
    → filter_by (λ c. not (is_space c)) (t ++ r) ≡ t ++ r
spaces_kept t r h p = rw (filter-spaces t r h) (ap (λ u. t ++ u) (pads_kept r p))
  where
    pads_kept : (u : List ℕ) → all_of is_padding u ≡ true → filter_by (λ c. not (is_space c)) u ≡ u
    pads_kept [] e = refl
    pads_kept (c ∷ u) e = ground (arith, pads_kept u)

-- A text whose length is a multiple of four loses up to two `=` at its end.
pub atob-whole :
    (t u : List ℕ)
    → filter_by (λ c. not (is_space c)) t ≡ t
    → length t % 4 ≡ 0
    → strip_one (strip_one t) ≡ u
    → atob t ≡ groups u
unfolding atob
atob-whole t u f l e = rw (f, l, e) refl

remainders : (n : ℕ) → n % 4 ≢ 1 → (n % 4 ≡ 0) ⊎ ((n % 4 ≡ 2) ⊎ (n % 4 ≡ 3))
remainders n h = ground arith

-- The padding that was dropped is put back, and `atob` drops it again.
atob-pad_text :
    (t : List ℕ) → all_of is_digit t ≡ true → length t % 4 ≢ 1 → atob (pad_text t) ≡ groups t
unfolding pad_text repeated
atob-pad_text t h l = elim (remainders (length t) l) [
  | inl e ↦
      let s = strip_one-digits t h in
      rw e (atob-whole t t (rw append-nil at (spaces_kept t [] h refl)) e (rw s s))
  | inr (inl e) ↦ rw e (
      atob-whole (t ++ (b'=' ∷ b'=' ∷ [])) t (spaces_kept t (b'=' ∷ b'=' ∷ []) h refl)
        (omega (arith, length-append t (b'=' ∷ b'=' ∷ []))) (strip_two_pads t))
  | inr (inr e) ↦ rw e (
      atob-whole (t ++ (b'=' ∷ [])) t (spaces_kept t (b'=' ∷ []) h refl)
        (omega (arith, length-append t (b'=' ∷ []))) (strip_two t h))
]

decoded_bytes : (bs : List ℕ) → AllBytes bs → atob (pad_text (map from_url (url_text bs))) ≡ some bs
decoded_bytes bs h =
    rw (url_text-digits bs h, map-from_url (digits bs) (digits-is_digit bs h))
      (atob-pad_text (digits bs) (digits-is_digit bs h) (length-digits bs) ∙ groups-digits bs h)

module _ {S : Type 0} (codec : Codec S) where
  encode-url_text :
      (state : S) (bytes : List ℕ)
      → codec.bytes_of state ≡ some bytes
      → encode_share_state codec state ≡ url_text bytes
  unfolding encode_share_state
  encode-url_text state bytes e = rw (e, encode_share_state) refl

  -- If the bytes of a state, each below 256, give the state back, then the text that
  -- encodeShareState makes of it is decoded by decodeShareState to the same state, and has only
  -- letters, digits, `-` and `_`, which a URL carries as they are.
  pub decode-encode :
      (state : S) (bytes : List ℕ)
      → codec.bytes_of state ≡ some bytes
      → AllBytes bytes
      → codec.state_of bytes ≡ some state
      → (decode_share_state codec (encode_share_state codec state) ≡ some state)
        × (all_of is_url_char (encode_share_state codec state) ≡ true)
  unfolding decode_share_state
  decode-encode state bytes e h back = rw (encode-url_text state bytes e) (
    rw (decoded_bytes bytes h) back,
    rw (url_text-digits bytes h) (map-is_url_char (digits bytes) (digits-is_digit bytes h)),
  )
