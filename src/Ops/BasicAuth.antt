-- ===== src/Ops/BasicAuth.antt =====
-- bull-board-auth.ts: HTTP Basic authentication. Base64 is decoded by Node, a parameter; two
-- texts are compared themselves where the source compares their SHA-256 digests.
use new_specter.Common.{split_at}
use new_specter.Common.{
  String, Bool, false, not, ◌&&◌, ◌||◌, Option, none, some, List, [], ◌∷◌, if◌then◌else◌, or_else,
  str_eq,
}

pub data Answer : Type 0 where
  not_configured unauthorised admitted : Answer

unfoldable pub safe_equal : String → String → Bool
safe_equal a b = str_eq a b

-- The element of an array at 1, which may be missing.
abbrev pub second : List String → Option String
second (a ∷ b ∷ ts) = some b
second _ = none

abbrev pub first : List String → Option String
first (a ∷ ts) = some a
first [] = none

-- An environment variable or a text, tested for truth.
abbrev pub present : Option String → Bool
present none = false
present (some t) = not (str_eq t "")

module _ (decode_base64 : String → String) where
  -- `safeEqual(u, user) && safeEqual(p, pass)` on the decoded credentials.
  unfoldable pub right_credentials : String → String → String → Bool
  unfolding safe_equal split_at
  right_credentials user pass encoded =
      let parts = split_at b':' (decode_base64 encoded) in
      elim (first parts) [
        | none ↦ false
        | some u ↦ elim (second parts) [
          | none ↦ false
          | some p ↦ safe_equal u user && safe_equal p pass
        ]
      ]

  unfoldable pub basic_auth : Option String → Option String → Option String → Answer
  unfolding right_credentials split_at
  basic_auth user pass authorization =
      if not (present user) || not (present pass)
      then not_configured
      else let parts = split_at 32 (or_else authorization "") in
        if str_eq (or_else (first parts) "") "Basic"
          && present (second parts)
          && right_credentials (or_else user "") (or_else pass "") (or_else (second parts) "")
        then admitted
        else unauthorised
