-- ===== src/Web/Api/Errors.antt =====
-- api.ts and toast.ts: which answers are errors, and what is shown of each.
use new_specter.Web.Api.{
  Response, ApiError, FetchResult, returned, nothing_returned, thrown, is_ok, payload_of, detail_of,
  body_of, api_error, api_fetch, or_text, generic_message, format_api_error,
}
use new_specter.Common.{
  ℕ, String, ◌≡◌, refl, ◌≢◌, inl, inr, true, false, Option, none, some, arith, ◌==◌, Bool-cases,
  str_eq,
}

or_text-nonempty :
    (o : Option String) (d : String) → str_eq d "" ≡ false → str_eq (or_text o d) "" ≡ false
or_text-nonempty none d h = h
or_text-nonempty (some s) d h = ground arith

format-nonempty : (e : ApiError) → str_eq (format_api_error e) "" ≡ false
unfolding format_api_error
format-nonempty e =
    or_text-nonempty e.body.message _
      (or_text-nonempty e.body.error _ (or_text-nonempty (some e.message) generic_message refl))

-- What a caller gets: nothing for 204, the payload for another status from 200 to 299, and
-- otherwise an error of the status, of which a text that is not empty is shown.
abbrev pub IsReported : Response → FetchResult → Type 0
IsReported r nothing_returned = r.status ≡ 204
IsReported r (returned p) = (is_ok r.status ≡ true) × (r.status ≢ 204) × (p ≡ payload_of r)
IsReported r (thrown e) =
    (is_ok r.status ≡ false) × (e.status ≡ r.status) × (str_eq (format_api_error e) "" ≡ false)

-- What a caller gets of an answer: nothing for 204, the payload for another status from 200 to 299,
-- and otherwise an exception with that status, for which the page shows a text that is not empty.
pub api_fetch-IsReported :
    (numeral : ℕ → String) (r : Response) → IsReported r (api_fetch numeral r)
unfolding api_fetch api_error
api_fetch-IsReported numeral r = elim (Bool-cases (r.status == 204)) [
  | inl e ↦ rw (e, api_fetch) (ground arith)
  | inr e ↦ elim (Bool-cases (is_ok r.status)) [
    | inl o ↦ rw (e, o, api_fetch) (o, ground arith, refl)
    | inr o ↦
        rw (e, o, api_fetch)
          (
            o,
            refl,
            format-nonempty (api_error numeral r.status (body_of (detail_of (payload_of r)))),
          )
  ]
]
