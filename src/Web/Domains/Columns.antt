-- ===== src/Web/Domains/Columns.antt =====
-- dashboard/group-by-domain.ts: the mean of the price gaps and the last check of a group.
use new_specter.Web.Domains.{Competitor, Product, DomainGroup, Gap, Ratio, gap_of, check_times}
use new_specter.Web.Domains.Newest.{is_latest, is_among}
use new_specter.Common.{
  String, Bool, ◌&&◌, Option, none, some, List, [], ◌∷◌, ◌++◌, if◌then◌else◌, str_eq,
}

-- The gaps to the competitors of a domain, in the order of the products.
abbrev pub gap_list : Option Gap → List Gap
gap_list none = []
gap_list (some g) = g ∷ []

abbrev pub gaps_of_competitors : String → Product → List Competitor → List Gap
gaps_of_competitors d prod [] = []
gaps_of_competitors d prod (c ∷ cs) =
    let rest = gaps_of_competitors d prod cs in
    if str_eq c.domain d then gap_list (gap_of c.latest_price prod.current_price) ++ rest else rest

abbrev pub gaps_of_products : String → List Product → List Gap
gaps_of_products d [] = []
gaps_of_products d (prod ∷ prods) =
    gaps_of_competitors d prod prod.competitors ++ gaps_of_products d prods

-- What the group of a domain shows as its mean gap.
abbrev pub shown_gap : String → List DomainGroup → Option Ratio
shown_gap d [] = none
shown_gap d (g ∷ gs) = if str_eq g.domain d then g.avg_price_gap else shown_gap d gs

-- The last check of a group is one of its checks that none of them comes after.
abbrev pub is_dated : DomainGroup → Bool
is_dated g =
    is_latest g.last_checked_at (check_times g.pairings)
    && is_among g.last_checked_at (check_times g.pairings)
