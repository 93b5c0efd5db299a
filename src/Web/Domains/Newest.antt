-- ===== src/Web/Domains/Newest.antt =====
-- dashboard/group-by-domain.ts: the order of texts and the last of sorted ones.
use new_specter.Web.Domains.{codes_before, text_before, last_of}
use new_specter.Common.{
  ℕ, String, ◌≡◌, refl, sym, ap, subst, ◌∙◌, Bool, true, false, not, ◌&&◌, ◌||◌, Option, none, some,
  List, [], ◌∷◌, arith, any_of, all_of, sort_by, is_sorted_by, sort_by-all_of, sort_by-is_sorted_by,
  str_eq, str_eq_refl, includes, codes,
}

codes_before_total : (xs ys : List ℕ) → (codes_before xs ys || codes_before ys xs) ≡ true
unfolding codes_before
codes_before_total [] [] = refl
codes_before_total [] (y ∷ ys) = refl
codes_before_total (x ∷ xs) [] = refl
codes_before_total (x ∷ xs) (y ∷ ys) = ground (arith, codes_before_total xs ys)

codes_before_trans :
    (xs ys zs : List ℕ)
    → codes_before xs ys ≡ true
    → codes_before ys zs ≡ true
    → codes_before xs zs ≡ true
unfolding codes_before
codes_before_trans [] ys zs h h' = refl
codes_before_trans (x ∷ xs) [] zs h h' = ground arith
codes_before_trans (x ∷ xs) (y ∷ ys) [] h h' = ground arith
codes_before_trans (x ∷ xs) (y ∷ ys) (z ∷ zs) h h' = ground (arith, codes_before_trans xs ys zs)

last-all_of :
    (p : String → Bool) (x : String) (xs : List String)
    → all_of p (x ∷ xs) ≡ true
    → (t : String) × (last_of (x ∷ xs) ≡ some t) × (p t ≡ true)
last-all_of p x [] h = (x, refl, ground arith)
last-all_of p x (y ∷ ys) h = last-all_of p y ys (ground arith)

-- A time that none of the times of a list comes after, and none where there are no times.
abbrev pub not_after : Option String → String → Bool
not_after none u = false
not_after (some t) u = text_before u t

abbrev pub is_latest : Option String → List String → Bool
is_latest o = all_of (not_after o)

last_sorted :
    (ts : List String) → is_sorted_by text_before ts ≡ true → is_latest (last_of ts) ts ≡ true
last_sorted [] h = refl
last_sorted (x ∷ []) h = ground (arith, codes_before_total (codes x) (codes x))
last_sorted (x ∷ y ∷ ys) h =
    let (t, e, b) = last-all_of (text_before x) y ys (ground arith) in
    let later : is_latest (last_of (y ∷ ys)) (y ∷ ys) ≡ true =
      last_sorted (y ∷ ys) (ground arith) in
    let those : is_latest (some t) (y ∷ ys) ≡ true =
      subst (λ o. is_latest o (y ∷ ys) ≡ true) e later in
    subst (λ o. is_latest o (x ∷ y ∷ ys) ≡ true) (sym e) (ground arith)

last_sort_by-is_latest : (ts : List String) → is_latest (last_of (sort_by text_before ts)) ts ≡ true
last_sort_by-is_latest ts =
    let sorted : List String = sort_by text_before ts in
    sym (sort_by-all_of text_before (not_after (last_of sorted)) ts)
    ∙ last_sorted sorted (
        sort_by-is_sorted_by text_before (λ a b. codes_before_total (codes a) (codes b))
          (λ a b c. codes_before_trans (codes a) (codes b) (codes c)) ts)

abbrev pub is_among : Option String → List String → Bool
is_among none ts = true
is_among (some t) ts = includes t ts

last-is_among : (ts : List String) → is_among (last_of ts) ts ≡ true
last-is_among [] = refl
last-is_among (x ∷ []) = ground (arith, str_eq_refl x)
last-is_among (x ∷ y ∷ ys) = is_among-cons x (last_of (y ∷ ys)) (y ∷ ys) (last-is_among (y ∷ ys))
  where
    is_among-cons :
        (x : String) (o : Option String) (ts : List String)
        → is_among o ts ≡ true
        → is_among o (x ∷ ts) ≡ true
    is_among-cons x none ts h = refl
    is_among-cons x (some t) ts h = ground arith

any_of-all_of :
    (p : String → Bool) (ts : List String) → any_of p ts ≡ not (all_of (λ u. not (p u)) ts)
any_of-all_of p [] = refl
any_of-all_of p (t ∷ ts) = ground (arith, any_of-all_of p ts)

sort_by-is_among :
    (o : Option String) (ts : List String) → is_among o (sort_by text_before ts) ≡ is_among o ts
sort_by-is_among none ts = refl
sort_by-is_among (some t) ts =
    any_of-all_of (str_eq t) (sort_by text_before ts)
    ∙ ap not (sort_by-all_of text_before (λ u. not (str_eq t u)) ts)
    ∙ sym (any_of-all_of (str_eq t) ts)

pub newest-is_dated :
    (ts : List String)
    → (is_latest (last_of (sort_by text_before ts)) ts
        && is_among (last_of (sort_by text_before ts)) ts)
      ≡ true
newest-is_dated ts =
    let sorted : List String = sort_by text_before ts in
    let among : is_among (last_of sorted) ts ≡ true =
      sym (sort_by-is_among (last_of sorted) ts) ∙ last-is_among sorted in
    rw (last_sort_by-is_latest ts, among) refl
