-- ===== src/Web/Domains/Partition.antt =====
-- dashboard/group-by-domain.ts: which competitors the groups show.
use mathlib.Core.List.{append-nil, append_assoc}
use new_specter.Web.Domains.{
  Competitor, Product, DomainPairing, DomainGroup, Pairings, pairing_of, push_pairing,
  push_competitors, push_products, at_key, Gaps, group_of_pairings, groups_of,
}
use new_specter.Common.{
  ◌+◌, String, ◌≡◌, refl, sym, ◌∙◌, ◌≢◌, inl, inr, Bool, true, false, not, ◌&&◌, List, [], ◌∷◌,
  ◌++◌, arith, ltb, leb, if◌then◌else◌, Bool-cases, length, any_of, str_eq, str_eq_iff,
}

-- The pairings that the group of a domain shows.
abbrev pub shown : String → List DomainGroup → List DomainPairing
shown d [] = []
shown d (g ∷ gs) = if str_eq g.domain d then g.pairings else shown d gs

-- The competitors of a domain, in the order of the products and of each product's competitors.
abbrev pub of_competitors : String → Product → List Competitor → List DomainPairing
of_competitors d prod [] = []
of_competitors d prod (c ∷ cs) =
    if str_eq c.domain d
    then pairing_of prod c ∷ of_competitors d prod cs
    else of_competitors d prod cs

abbrev pub of_products : String → List Product → List DomainPairing
of_products d [] = []
of_products d (prod ∷ prods) = of_competitors d prod prod.competitors ++ of_products d prods

pub at_key-push_pairing :
    {A : Type 0}
    → (d k : String) (x : A) (m : List (String × List A))
    → at_key d (push_pairing k x m) ≡ (if str_eq k d then at_key d m ++ (x ∷ []) else at_key d m)
at_key-push_pairing d k x [] = refl
at_key-push_pairing d k x (e ∷ m) =
    ground (arith, at_key-push_pairing d k x m, str_eq_iff e.0 k, str_eq_iff e.0 d, str_eq_iff k d)

at_key-push_competitors :
    (d : String) (prod : Product) (cs : List Competitor) (m : Pairings)
    → d ≢ ""
    → at_key d (push_competitors prod cs m) ≡ at_key d m ++ of_competitors d prod cs
at_key-push_competitors d prod [] m ne = sym (append-nil (at_key d m))
at_key-push_competitors d prod (c ∷ cs) m ne =
    let x : DomainPairing = pairing_of prod c in
    elim (Bool-cases (str_eq c.domain d)) [
      | inl e ↦
          let full : str_eq c.domain "" ≡ false =
            ground (arith, str_eq_iff c.domain d, str_eq_iff c.domain "") in
          rw
            (
              full,
              at_key-push_competitors d prod cs (push_pairing c.domain x m) ne,
              at_key-push_pairing d c.domain x m,
              e,
            )
            (append_assoc (at_key d m) (x ∷ []) (of_competitors d prod cs))
      | inr e ↦ elim (Bool-cases (str_eq c.domain "")) [
        | inl empty ↦ rw (empty, e) (at_key-push_competitors d prod cs m ne)
        | inr full ↦
            rw
              (
                full,
                at_key-push_competitors d prod cs (push_pairing c.domain x m) ne,
                at_key-push_pairing d c.domain x m,
                e,
              )
              refl
      ]
    ]

pub at_key-push_products :
    (d : String) (prods : List Product) (m : Pairings)
    → d ≢ ""
    → at_key d (push_products prods m) ≡ at_key d m ++ of_products d prods
at_key-push_products d [] m ne = sym (append-nil (at_key d m))
at_key-push_products d (prod ∷ prods) m ne =
    at_key-push_products d prods (push_competitors prod prod.competitors m) ne
    ∙ rw (at_key-push_competitors d prod prod.competitors m ne)
        (append_assoc (at_key d m) (of_competitors d prod prod.competitors) (of_products d prods))

abbrev pub has_domain : String → List DomainGroup → Bool
has_domain d = any_of (λ g. str_eq g.domain d)

-- No two groups have one domain, and none is of the empty domain.
abbrev pub one_group_each : List DomainGroup → Bool
one_group_each [] = true
one_group_each (g ∷ gs) = not (has_domain g.domain gs) && one_group_each gs

-- A group shows a competitor at least, and counts none both in stock and out of stock.
abbrev pub is_counted : DomainGroup → Bool
is_counted g = ltb 0 g.product_count && leb (g.in_stock + g.oos) g.product_count

abbrev pub has_entry : String → Pairings → Bool
has_entry d = any_of (λ e. str_eq e.0 d)

-- What the loops keep of the map: one entry for each key, and none without a pairing.
abbrev is_map : Pairings → Bool
is_map [] = true
is_map (e ∷ m) = not (has_entry e.0 m) && ltb 0 (length e.1) && is_map m

pub groups_of-has_domain :
    (d : String) (m : Pairings) (gaps : Gaps) → has_domain d (groups_of m gaps) ≡ has_entry d m
unfolding group_of_pairings
groups_of-has_domain d [] gaps = refl
groups_of-has_domain d (e ∷ m) gaps = ground (arith, groups_of-has_domain d m gaps)
