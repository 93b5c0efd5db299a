-- ===== src/Scrape/Domains/Urls.antt =====
-- domains/shopify.ts and woocommerce.ts: the addresses of the structured endpoints.
use Prim.Native.Char.{Char, code}
use new_specter.Common.{split_at, lacks, first_part, put_first}
use new_specter.Common.{
  ℕ, String, ◌≡◌, refl, sym, ap, ◌∙◌, ◌⊎◌, inl, inr, true, false, ◌&&◌, ◌||◌, Option, none, some,
  List, [], ◌∷◌, arith, ◌==◌, if◌then◌else◌, Bool-cases, ◌>>=◌, joined, after, str_eq,
}

-- `s.replace(/\/+$/, '')`
unfoldable pub trim_slashes : String → String
trim_slashes String.[] = String.[]
trim_slashes (String.◌∷◌ c s) =
    let rest = trim_slashes s in
    if code c == b'/' && str_eq rest String.[] then String.[] else String.◌∷◌ c rest

-- The address without its hash, its query and the slashes at its end.
unfoldable pub product_base : String → String
product_base url = trim_slashes (first_part (split_at b'?' (first_part (split_at b'#' url))))

unfoldable pub shopify_product_json_url : String → String
shopify_product_json_url url = joined (product_base url) ".json"

unfoldable pub shopify_product_js_url : String → String
shopify_product_js_url url = joined (product_base url) ".js"

-- `[^/?#]+` at the start of the text.
unfoldable pub slug_of : String → String
slug_of String.[] = String.[]
slug_of (String.◌∷◌ c s) =
    let rest = slug_of s in
    if code c == b'/' || code c == b'?' || code c == b'#' then String.[] else String.◌∷◌ c rest

-- `url.match(/\/product\/([^/?#]+)/)`: the first place where a slug of a character follows.
unfoldable pub product_slug : String → Option String
product_slug String.[] = none
product_slug (String.◌∷◌ c s) =
    let later = product_slug s in
    elim (after "/product/" (String.◌∷◌ c s)) [
      | none ↦ later
      | some rest ↦ if str_eq (slug_of rest) String.[] then later else some (slug_of rest)
    ]

-- The origin that `new URL` reads in the address.
unfoldable pub woo_store_api_url : (String → String) → String → Option String
woo_store_api_url origin url = do
  slug ← product_slug url
  some (joined (origin url) (joined "/wp-json/wc/store/v1/products?slug=" slug))

first_part-put_first : (s : String) (ts : List String) → first_part (put_first s ts) ≡ s
first_part-put_first s [] = refl
first_part-put_first s (t ∷ ts) = refl

split_at-joined :
    (sep : ℕ) (u v : String)
    → lacks sep u ≡ true
    → first_part (split_at sep (joined u v)) ≡ joined u (first_part (split_at sep v))
unfolding split_at joined
split_at-joined sep String.[] v h = refl
split_at-joined sep (String.◌∷◌ c u) v h = elim (Bool-cases (code c == sep)) [
  | inl e ↦ cc (rw e at h)
  | inr e ↦
      rw (e, split_at)
        (first_part-put_first _ (split_at sep (joined u v))
          ∙ ap (λ s. String.◌∷◌ c s) (split_at-joined sep u v (rw e at h)))
]

joined-nil : (u : String) → joined u String.[] ≡ u
unfolding joined
joined-nil String.[] = refl
joined-nil (String.◌∷◌ c u) = ap (λ s. String.◌∷◌ c s) (joined-nil u)

split_at-first : (sep : ℕ) (u : String) → lacks sep u ≡ true → first_part (split_at sep u) ≡ u
unfolding split_at
split_at-first sep u h =
    ap (λ s. first_part (split_at sep s)) (sym (joined-nil u))
    ∙ split_at-joined sep u String.[] h
    ∙ joined-nil u

head_cut :
    (sep : ℕ) (c : Char) (q : String)
    → code c ≡ sep
    → first_part (split_at sep (String.◌∷◌ c q)) ≡ String.[]
unfolding split_at
head_cut sep c q h = ground arith

product_base-first :
    (u v : String)
    → lacks b'?' u ≡ true
    → first_part (split_at b'#' v) ≡ u
    → product_base v ≡ trim_slashes u
unfolding product_base
product_base-first u v h e = rw (e, split_at-first b'?' u h) refl

head_kept :
    (sep : ℕ) (c : Char) (q : String)
    → (code c == sep) ≡ false
    → first_part (split_at sep (String.◌∷◌ c q)) ≡ String.◌∷◌ c (first_part (split_at sep q))
unfolding split_at
head_kept sep c q h = rw (h, split_at) (first_part-put_first _ (split_at sep q))

hash_dropped :
    (u q : String) (c : Char)
    → lacks b'#' u ≡ true
    → lacks b'?' u ≡ true
    → code c ≡ b'#'
    → product_base (joined u (String.◌∷◌ c q)) ≡ product_base u
hash_dropped u q c h h' e =
    product_base-first u (joined u (String.◌∷◌ c q)) h' (
      split_at-joined b'#' u (String.◌∷◌ c q) h
      ∙ ap (joined u) (head_cut b'#' c q e)
      ∙ joined-nil u)
    ∙ sym (product_base-first u u h' (split_at-first b'#' u h))

query_dropped :
    (u q : String) (c : Char)
    → lacks b'#' u ≡ true
    → lacks b'?' u ≡ true
    → code c ≡ b'?'
    → product_base (joined u (String.◌∷◌ c q)) ≡ product_base u
unfolding product_base
query_dropped u q c h h' e =
    ap (λ s. trim_slashes (first_part (split_at b'?' s)))
      (split_at-joined b'#' u (String.◌∷◌ c q) h
        ∙ ap (joined u) (head_kept b'#' c q (ground arith)))
    ∙ ap trim_slashes (
        split_at-joined b'?' u (String.◌∷◌ c (first_part (split_at b'#' q))) h'
        ∙ ap (joined u) (head_cut b'?' c _ e)
        ∙ joined-nil u)
    ∙ sym (product_base-first u u h' (split_at-first b'#' u h))

-- An address without `?` and `#` has the same two Shopify endpoints as the address with any query
-- or hash behind it.
pub endpoints_ignore_query :
    (u q : String) (c : Char)
    → lacks b'#' u ≡ true
    → lacks b'?' u ≡ true
    → (code c ≡ b'#') ⊎ (code c ≡ b'?')
    → (shopify_product_js_url (joined u (String.◌∷◌ c q)) ≡ shopify_product_js_url u)
      × (shopify_product_json_url (joined u (String.◌∷◌ c q)) ≡ shopify_product_json_url u)
unfolding shopify_product_js_url shopify_product_json_url
endpoints_ignore_query u q c h h' (inl e) = (
  ap (λ b. joined b ".js") (hash_dropped u q c h h' e),
  ap (λ b. joined b ".json") (hash_dropped u q c h h' e),
)
endpoints_ignore_query u q c h h' (inr e) = (
  ap (λ b. joined b ".js") (query_dropped u q c h h' e),
  ap (λ b. joined b ".json") (query_dropped u q c h h' e),
)
