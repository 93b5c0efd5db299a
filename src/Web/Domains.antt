-- ===== src/Web/Domains.antt =====
-- dashboard/group-by-domain.ts: the competitors of all products by their domain. Prices are natural
-- numbers of some smallest unit, and the mean of the price gaps is an exact fraction.
pub mod Partition
pub mod Newest
pub mod Columns
use new_specter.Common.{
  ℕ, zero, suc, ◌+◌, ◌-◌, ◌*◌, ◌/◌, ◌%◌, ◌^◌, ◌≤◌, ◌<◌, min, max, String, ◌≡◌, refl, sym, ap, subst,
  ◌∙◌, fun_ext, ◌≢◌, ◌↔◌, ◌⊎◌, inl, inr, Bool, true, false, not, ◌&&◌, ◌||◌, Option, none, some,
  List, [], ◌∷◌, ◌++◌, map, arith, ℕ_discrete, ltb, leb, ◌==◌, if◌then◌else◌, ltb→lt, lt→ltb,
  leb→le, le→leb, ==_iff, Bool-cases, Option-cases, is_some, or_else, ◌>>=◌, length, get_or, any_of,
  all_of, filter_by, length-append, any_of-append, get_or-any_of, any_of-false, all_of-get_or,
  all_of-filter_by, length-filter_by-le, sort_by, is_sorted_by, sort_by-Perm, sort_by-all_of,
  sort_by-stable, sort_by-is_sorted_by, sort_by-eq-filter_by, ℤ, pos, negsuc, credit, debit,
  difference, ◌+ℤ◌, leb_ℤ, +ℤ_lem, ℤ_ext, integers, joined, after, after-joined, joined-injective,
  joined-after, str_eq, str_eq_iff, str_eq_refl, str_eq_ne, includes, includes-any_of, codes,
  contains, matches_ci,
}

pub record Competitor : Type 0 where
  pub tracking_id : String
  pub domain : String
  pub url : String
  pub latest_price : Option ℕ
  pub in_stock : Option Bool
  pub last_checked_at : Option String
  pub robots_blocked : Bool
  pub silenced_oos : Bool

pub record Product : Type 0 where
  pub id : String
  pub title : String
  pub current_price : Option ℕ
  pub competitors : List Competitor

pub record DomainPairing : Type 0 where
  pub product_id : String
  pub product_title : String
  pub tracking_id : String
  pub url : String
  pub latest_price : Option ℕ
  pub in_stock : Option Bool
  pub last_checked_at : Option String
  pub robots_blocked : Bool
  pub silenced_oos : Bool

-- The gap `(price - own) / own`, with `own` above zero.
pub record Gap : Type 0 where
  pub price : ℕ
  pub own : ℕ

-- `(above - below) / over`
pub record Ratio : Type 0 where
  pub above : ℕ
  pub below : ℕ
  pub over : ℕ

pub data DomainHealth : Type 0 where
  healthy degraded blocked : DomainHealth

pub record DomainGroup : Type 0 where
  pub domain : String
  pub product_count : ℕ
  pub in_stock : ℕ
  pub oos : ℕ
  pub avg_price_gap : Option Ratio
  pub health : DomainHealth
  pub last_checked_at : Option String
  pub pairings : List DomainPairing

-- The map from domains to pairings, in the order of insertion.
abbrev pub Pairings : Type 0
Pairings = List (String × List DomainPairing)

abbrev pub pairing_of : Product → Competitor → DomainPairing
pairing_of prod c = record {
  product_id = prod.id;
  product_title = prod.title;
  tracking_id = c.tracking_id;
  url = c.url;
  latest_price = c.latest_price;
  in_stock = c.in_stock;
  last_checked_at = c.last_checked_at;
  robots_blocked = c.robots_blocked;
  silenced_oos = c.silenced_oos;
}

-- `map.set(domain, [...list, x])`
abbrev pub push_pairing :
    {A : Type 0} → String → A → List (String × List A) → List (String × List A)
push_pairing domain x [] = (domain, x ∷ []) ∷ []
push_pairing domain x (e ∷ m) =
    if str_eq e.0 domain then (e.0, e.1 ++ (x ∷ [])) ∷ m else e ∷ push_pairing domain x m

-- The inner loop; an empty domain is skipped.
abbrev pub push_competitors : Product → List Competitor → Pairings → Pairings
push_competitors prod [] m = m
push_competitors prod (c ∷ cs) m =
    push_competitors prod cs
      (if str_eq c.domain "" then m else push_pairing c.domain (pairing_of prod c) m)

abbrev pub push_products : List Product → Pairings → Pairings
push_products [] m = m
push_products (prod ∷ prods) m = push_products prods (push_competitors prod prod.competitors m)

-- What the same loops put in the other map, which they do not read either.
abbrev pub Gaps : Type 0
Gaps = List (String × List Gap)

abbrev pub gap_of : Option ℕ → Option ℕ → Option Gap
gap_of (some price) (some own) =
    if ltb 0 own then some record { price = price; own = own } else none
gap_of _ _ = none

abbrev pub push_gap : String → Option Gap → Gaps → Gaps
push_gap domain none m = m
push_gap domain (some g) m = push_pairing domain g m

abbrev pub gap_competitors : Product → List Competitor → Gaps → Gaps
gap_competitors prod [] m = m
gap_competitors prod (c ∷ cs) m = gap_competitors prod cs (
    if str_eq c.domain ""
    then m
    else push_gap c.domain (gap_of c.latest_price prod.current_price) m)

abbrev pub gap_products : List Product → Gaps → Gaps
gap_products [] m = m
gap_products (prod ∷ prods) m = gap_products prods (gap_competitors prod prod.competitors m)

abbrev pub at_key : {A : Type 0} → String → List (String × List A) → List A
at_key d [] = []
at_key d (e ∷ m) = if str_eq e.0 d then e.1 else at_key d m

abbrev pub sum_gaps : Ratio → List Gap → Ratio
sum_gaps r [] = r
sum_gaps r (g ∷ gs) =
    sum_gaps
      record {
        above = r.above * g.own + g.price * r.over;
        below = r.below * g.own + g.own * r.over;
        over = r.over * g.own;
      }
      gs

unfoldable pub mean_gap : List Gap → Option Ratio
mean_gap [] = none
mean_gap (g ∷ gs) =
    let sum = sum_gaps record { above = 0; below = 0; over = 1 } (g ∷ gs) in
    some record { above = sum.above; below = sum.below; over = sum.over * length (g ∷ gs) }

-- JavaScript's order of texts, by their codes.
unfoldable pub codes_before : List ℕ → List ℕ → Bool
codes_before [] ys = true
codes_before (x ∷ xs) [] = false
codes_before (x ∷ xs) (y ∷ ys) = ltb x y || ((x == y) && codes_before xs ys)

abbrev pub text_before : String → String → Bool
text_before s t = codes_before (codes s) (codes t)

-- `pairings.map(p => p.lastCheckedAt).filter(Boolean)`
abbrev pub check_times : List DomainPairing → List String
check_times [] = []
check_times (p ∷ ps) = elim p.last_checked_at [
  | none ↦ check_times ps
  | some t ↦ if str_eq t "" then check_times ps else t ∷ check_times ps
]

-- `.at(-1)`
abbrev pub last_of {ℓ} : {A : Type ℓ} → List A → Option A
last_of [] = none
last_of (x ∷ []) = some x
last_of (x ∷ y ∷ ys) = last_of (y ∷ ys)

abbrev pub is_in : Option Bool → Bool
is_in (some true) = true
is_in _ = false

abbrev pub is_out : Option Bool → Bool
is_out (some false) = true
is_out _ = false

unfoldable pub group_of_pairings : String → List DomainPairing → List Gap → DomainGroup
group_of_pairings domain pairings gaps = record {
  domain = domain;
  product_count = length pairings;
  in_stock = length (filter_by (λ p. is_in p.in_stock) pairings);
  oos = length (filter_by (λ p. is_out p.in_stock) pairings);
  avg_price_gap = mean_gap gaps;
  health =
      if any_of (λ p. p.robots_blocked) pairings
      then blocked
      else if all_of (λ p. not (is_some p.latest_price)) pairings
      then degraded
      else healthy;
  last_checked_at = last_of (sort_by text_before (check_times pairings));
  pairings = pairings;
}

abbrev pub groups_of : Pairings → Gaps → List DomainGroup
groups_of [] gaps = []
groups_of (e ∷ m) gaps = group_of_pairings e.0 e.1 (at_key e.0 gaps) ∷ groups_of m gaps

unfoldable pub group_by_domain : List Product → List DomainGroup
group_by_domain products = groups_of (push_products products []) (gap_products products [])
