-- ===== src/Proxy/Rotation.antt =====
-- proxy/manager.ts, lines 248-269: the loop of `pickHealthy`, over any health test.
use native.Mathlib.Nat.{mod-lt, mod-eq_of_lt, add-mod_left, add-zero}
use new_specter.Common.{
  ℕ, zero, suc, ◌+◌, ◌-◌, ◌%◌, ◌≤◌, ◌<◌, String, ◌≡◌, refl, ap, ◌∙◌, ◌↔◌, inl, inr, Bool, true,
  false, Option, none, some, List, arith, ltb, ◌==◌, if◌then◌else◌, ==_iff, Bool-cases, length,
  get_or, any_of, get_or-any_of, any_of-false, str_eq, str_eq_refl, includes,
}

-- The rounds `offset .. offset + left` of the loop. The result is the proxy and the next cursor.
unfoldable pub scan : (String → Bool) → List String → ℕ → ℕ → ℕ → Option (String × ℕ)
scan healthy pool start offset zero = none
scan healthy pool start offset (suc left) =
    let idx = (start + offset) % length pool in
    let ip = get_or pool idx "" in
    let rest = scan healthy pool start (offset + 1) left in
    if healthy ip then some (ip, (idx + 1) % length pool) else rest

module _ (healthy : String → Bool) (pool : List String) (start : ℕ) where
  -- What the loop returns is healthy, stands in the pool, and moves the cursor inside the pool.
  pub scan-some :
      (offset left : ℕ) {ip : String} {c : ℕ}
      → 0 < length pool
      → scan healthy pool start offset left ≡ some (ip, c)
      → (healthy ip ≡ true) × (includes ip pool ≡ true) × (c < length pool)
  unfolding scan
  scan-some offset zero nonempty e = cc
  scan-some offset (suc left) {ip} {c} nonempty e =
      let idx = (start + offset) % length pool in
      let found = get_or pool idx "" in
      elim (Bool-cases (healthy found)) [
        | inl h ↦ ground (
          arith,
          get_or-any_of (str_eq found) pool idx "" (mod-lt (start + offset) nonempty)
              (str_eq_refl found),
          mod-lt (idx + 1) nonempty,
        )
        | inr h ↦ ground (arith, scan-some (offset + 1) left {ip = ip} {c = c} nonempty)
      ]

  -- The loop fails exactly if every proxy that it looks at is cooling.
  scan-none :
      (offset left i : ℕ)
      → scan healthy pool start offset left ≡ none
      → offset ≤ i
      → i < offset + left
      → healthy (get_or pool ((start + i) % length pool) "") ≡ false
  unfolding scan
  scan-none offset zero i e a b = absurd (omega arith)
  scan-none offset (suc left) i e a b = elim (Bool-cases (i == offset)) [
    | inl same ↦ rw ((==_iff i offset).0 same) (ground arith)
    | inr other ↦ ground (arith, scan-none (offset + 1) left i)
  ]

  scan-cooling :
      (offset left : ℕ)
      → ((i : ℕ) → healthy (get_or pool ((start + i) % length pool) "") ≡ false)
      → scan healthy pool start offset left ≡ none
  unfolding scan
  scan-cooling offset zero h = refl
  scan-cooling offset (suc left) h = rw (h offset) (scan-cooling (offset + 1) left h)

  -- A whole turn from a cursor inside the pool comes by every index.
  pub turn : (n i : ℕ) → start < n → i < n → (o : ℕ) × (o < n) × ((start + o) % n ≡ i)
  turn n i hs hi = elim (Bool-cases (ltb i start)) [
    | inl before ↦ (n - start + i, ground arith, wrapped (ground arith))
    | inr after ↦ (i - start, omega arith, straight (ground arith))
  ]
    where
      wrapped : i < start → (start + (n - start + i)) % n ≡ i
      wrapped lt = ap (λ (k : ℕ). k % n) (omega arith) ∙ add-mod_left n i ∙ mod-eq_of_lt hi

      straight : start ≤ i → (start + (i - start)) % n ≡ i
      straight le = ap (λ (k : ℕ). k % n) (omega arith) ∙ mod-eq_of_lt hi

  -- So the loop over the whole pool fails exactly if the whole pool is cooling.
  pub scan-none_iff :
      start < length pool
      → (scan healthy pool start 0 (length pool) ≡ none) ↔ (any_of healthy pool ≡ false)
  scan-none_iff hs = (
    (λ e. any_of-false healthy pool "" λ i hi.
        let (o, below, reached) = turn (length pool) i hs hi in
        rw reached at (scan-none 0 (length pool) o e (omega arith) (omega arith))),
    (λ e. scan-cooling 0 (length pool) λ i. ground (
      arith,
      get_or-any_of healthy pool ((start + i) % length pool) "" (mod-lt (start + i) (omega arith)),
    )),
  )

  -- The loop takes the proxy under the cursor, if that is healthy.
  pub scan-first :
      (left : ℕ)
      → 0 < left
      → healthy (get_or pool (start % length pool) "") ≡ true
      → scan healthy pool start 0 left
        ≡ some (get_or pool (start % length pool) "", (start % length pool + 1) % length pool)
  unfolding scan
  scan-first zero p h = elim p [ ]
  scan-first (suc left) p h = rw (add-zero, h)
