-- ===== src/Web/Api.antt =====
-- api.ts and toast.ts: a request to specter-api, its result and what is shown of an error. What
-- `fetch` answers is an argument, with what `JSON.parse` reads in the body; an exception of `fetch`
-- is left out.
pub mod Errors
use new_specter.Common.{
  ℕ, zero, suc, ◌+◌, ◌-◌, ◌*◌, ◌/◌, ◌%◌, ◌^◌, ◌≤◌, ◌<◌, min, max, String, ◌≡◌, refl, sym, ap, subst,
  ◌∙◌, fun_ext, ◌≢◌, ◌↔◌, ◌⊎◌, inl, inr, Bool, true, false, not, ◌&&◌, ◌||◌, Option, none, some,
  List, [], ◌∷◌, ◌++◌, map, arith, ℕ_discrete, ltb, leb, ◌==◌, if◌then◌else◌, ltb→lt, lt→ltb,
  leb→le, le→leb, ==_iff, Bool-cases, Option-cases, is_some, or_else, ◌>>=◌, length, get_or, any_of,
  all_of, filter_by, length-append, any_of-append, get_or-any_of, any_of-false, all_of-get_or,
  all_of-filter_by, length-filter_by-le, sort_by, is_sorted_by, sort_by-Perm, sort_by-all_of,
  sort_by-stable, sort_by-is_sorted_by, sort_by-eq-filter_by, ℤ, pos, negsuc, credit, debit,
  difference, ◌+ℤ◌, leb_ℤ, +ℤ_lem, ℤ_ext, integers, joined, after, after-joined, joined-injective,
  joined-after, str_eq, str_eq_iff, str_eq_refl, str_eq_ne, includes, includes-any_of, codes,
  contains, matches_ci,
}

-- The member `detail` of a body: null, an object with its members `error` and `message` where they
-- are texts, or what `String` makes of another value.
pub data Detail : Type 0 where
  null_detail : Detail
  object_detail : Option String → Option String → Detail
  other_detail : String → Detail

-- A body that was parsed, or a text that was not. An object has a `detail` or its own members.
pub data ResponseBody : Type 0 where
  null_payload : ResponseBody
  wrapped : Detail → ResponseBody
  plain_object : Option String → Option String → ResponseBody
  scalar : String → ResponseBody

-- The text of the body and what it is parsed to; `none` is an exception of `JSON.parse`.
pub record Response : Type 0 where
  pub status : ℕ
  pub body_text : String
  pub parsed : Option ResponseBody

pub record ApiErrorBody : Type 0 where
  pub error : Option String
  pub message : Option String

pub record ApiError : Type 0 where
  pub status : ℕ
  pub body : ApiErrorBody
  pub message : String

pub data FetchResult : Type 0 where
  returned : ResponseBody → FetchResult
  nothing_returned : FetchResult
  thrown : ApiError → FetchResult

pub record Request : Type 0 where
  pub path : String
  pub authorization : Option String

-- The header is set only with a token, and an empty one is falsy.
unfoldable pub request_of : Option String → String → Request
request_of none path = record { path = path; authorization = none }
request_of (some String.[]) path = record { path = path; authorization = none }
request_of (some (String.◌∷◌ c s)) path = record {
  path = path;
  authorization = some (joined "Bearer " (String.◌∷◌ c s));
}

-- `resp.ok`
abbrev pub is_ok : ℕ → Bool
is_ok status = leb 200 status && leb status 299

unfoldable pub payload_of : Response → ResponseBody
payload_of r = if str_eq r.body_text "" then null_payload else or_else r.parsed (scalar r.body_text)

unfoldable pub detail_of : ResponseBody → Detail
detail_of (wrapped d) = d
detail_of null_payload = null_detail
detail_of (plain_object error message) = object_detail error message
detail_of (scalar s) = other_detail s

unfoldable pub body_of : Detail → ApiErrorBody
body_of null_detail = record { error = some "unknown_error"; message = none }
body_of (object_detail error message) = record { error = error; message = message }
body_of (other_detail s) = record { error = some s; message = none }

-- `new ApiError(status, body)`; `numeral` writes a number.
unfoldable pub api_error : (ℕ → String) → ℕ → ApiErrorBody → ApiError
api_error numeral status body = record {
  status = status;
  body = body;
  message = or_else body.error (joined "API error " (numeral status));
}

unfoldable pub api_fetch : (ℕ → String) → Response → FetchResult
api_fetch numeral r =
    if r.status == 204
    then nothing_returned
    else if is_ok r.status
    then returned (payload_of r)
    else thrown (api_error numeral r.status (body_of (detail_of (payload_of r))))

-- The text of `a || b` where `a` may be missing.
abbrev pub or_text : Option String → String → String
or_text none d = d
or_text (some s) d = if str_eq s "" then d else s

abbrev pub generic_message : String
generic_message = "Something went wrong. Please try again."

unfoldable pub format_api_error : ApiError → String
format_api_error e =
    or_text e.body.message (or_text e.body.error (or_text (some e.message) generic_message))
