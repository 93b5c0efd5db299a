-- ===== src/Web/Share.antt =====
-- tools/share.ts: the state of a tool in a link. A text is the list of its codes.
--
-- What `JSON` and the URI functions make of a state is a `Codec`: `bytes_of` is
-- `unescape(encodeURIComponent(JSON.stringify(state)))`, whose codes are bytes, and `state_of` is
-- `JSON.parse(decodeURIComponent(escape(bytes)))`; `none` is an exception.
pub mod Base64
pub mod Digits
pub mod RoundTrip
pub mod Rejects
use new_specter.Web.Share.Base64.{btoa, atob}
use new_specter.Common.{
  ℕ, zero, suc, ◌+◌, ◌-◌, ◌*◌, ◌/◌, ◌%◌, ◌^◌, ◌≤◌, ◌<◌, min, max, String, ◌≡◌, refl, sym, ap, subst,
  ◌∙◌, fun_ext, ◌≢◌, ◌↔◌, ◌⊎◌, inl, inr, Bool, true, false, not, ◌&&◌, ◌||◌, Option, none, some,
  List, [], ◌∷◌, ◌++◌, map, arith, ℕ_discrete, ltb, leb, ◌==◌, if◌then◌else◌, ltb→lt, lt→ltb,
  leb→le, le→leb, ==_iff, Bool-cases, Option-cases, is_some, or_else, ◌>>=◌, length, get_or, any_of,
  all_of, filter_by, length-append, any_of-append, get_or-any_of, any_of-false, all_of-get_or,
  all_of-filter_by, length-filter_by-le, str_eq, str_eq_iff, str_eq_refl, str_eq_ne, includes,
  includes-any_of, codes, contains, matches_ci,
}

pub record Codec (S : Type 0) : Type 0 where
  pub bytes_of : S → Option (List ℕ)
  pub state_of : List ℕ → Option S

-- `.replace(/\+/g, '-').replace(/\//g, '_')`
unfoldable pub to_url : ℕ → ℕ
to_url c = if c == b'+' then b'-' else if c == b'/' then b'_' else c

-- `.replace(/-/g, '+').replace(/_/g, '/')`
unfoldable pub from_url : ℕ → ℕ
from_url c = if c == b'-' then b'+' else if c == b'_' then b'/' else c

abbrev pub is_padding : ℕ → Bool
is_padding c = c == b'='

-- The text is empty where the source catches an exception.
unfoldable pub url_text : List ℕ → List ℕ
url_text bytes = filter_by (λ c. not (is_padding c)) (map to_url (btoa bytes))

unfoldable pub repeated : ℕ → ℕ → List ℕ
repeated zero c = []
repeated (suc n) c = c ∷ repeated n c

unfoldable pub pad_text : List ℕ → List ℕ
pad_text t = let pad = length t % 4 in if pad == 0 then t else t ++ repeated (4 - pad) b'='

module _ {S : Type 0} (codec : Codec S) where
  unfoldable pub encode_share_state : S → List ℕ
  encode_share_state state = elim (codec.bytes_of state) [ none ↦ [] | some b ↦ url_text b ]

  unfoldable pub decode_share_state : List ℕ → Option S
  decode_share_state encoded = do
    bytes ← atob (pad_text (map from_url encoded))
    codec.state_of bytes

  unfoldable pub build_share_url : List ℕ → List ℕ → S → List ℕ
  build_share_url base path state = elim (encode_share_state state) [
    | [] ↦ path
    | c ∷ cs ↦ base ++ (path ++ (b'?' ∷ b's' ∷ b'=' ∷ c ∷ cs))
  ]
