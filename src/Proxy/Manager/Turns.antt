-- ===== src/Proxy/Manager/Turns.antt =====
-- proxy/manager.ts, `next`: a domain keeps its proxy, and calls without a domain take turns.
use native.Mathlib.Nat.{add-zero, mod-lt, mod-add-mod}
use new_specter.Proxy.Health.{ProxyHealthStore}
use new_specter.Proxy.Rotation.{scan-first, turn}
use new_specter.Proxy.Manager.{
  Tier, datacenter, residential, StickyEntry, ProxyManager, sticky_get, other_tier, pool_for,
  is_healthy, cursor_of, pick_healthy, remember, assign, next,
}
use new_specter.Proxy.Manager.Picking.{IsWellFormed, cursor_fits, pick_healthy-keeps}
use new_specter.Proxy.Manager.Assignments.{sticky_get-sticky_set, key_eq_iff}
use new_specter.Proxy.Manager.Bans.{hands_out}
use new_specter.Common.{
  ℕ, zero, suc, ◌+◌, ◌%◌, ◌<◌, String, ◌≡◌, refl, ap, ◌∙◌, true, Option, none, some, List, [], ◌∷◌,
  arith, leb, lt→ltb, length, get_or, any_of, all_of, get_or-any_of, all_of-get_or, str_eq_refl,
}

turn_suc : (c j n : ℕ) → ((c % n + 1) % n + j) % n ≡ (c + suc j) % n
turn_suc c j n =
    mod-add-mod (c % n + 1) n j ∙ ap (λ (k : ℕ). k % n) (omega arith) ∙ mod-add-mod c n (suc j)

module _ (𝓢 : ProxyHealthStore) where
  open 𝓢 use {State, get, set}

  is_healthy-same :
      (m m' : ProxyManager State) (now : ℕ) (ip : String)
      → m'.store ≡ m.store
      → is_healthy 𝓢 m' now ip ≡ is_healthy 𝓢 m now ip
  unfolding is_healthy
  is_healthy-same m m' now ip e = ap (λ (s : State). leb (get s ip).cooldown_until now) e

  assign-assigns :
      (m : ProxyManager State) (tier : Tier) (d : String) (now : ℕ) (ip : String)
      → (assign 𝓢 m tier (some d) now).0 ≡ some ip
      → sticky_get (tier, d) (assign 𝓢 m tier (some d) now).1.sticky
        ≡ some (record { ip = ip; expires_at = now + m.sticky_window_ms })
  unfolding assign remember
  assign-assigns m tier d now ip e =
      let m₁ = (pick_healthy 𝓢 m tier now).1 in
      let m₂ = (pick_healthy 𝓢 m₁ (other_tier tier) now).1 in
      let entry : StickyEntry = record { ip = ip; expires_at = now + m.sticky_window_ms } in
      let own = (key_eq_iff (tier, d) (tier, d)).1 refl in
      ground (
        arith,
        own,
        pick_healthy-keeps 𝓢 m tier now,
        pick_healthy-keeps 𝓢 m₁ (other_tier tier) now,
        sticky_get-sticky_set (tier, d) (tier, d) entry m₁.sticky,
        sticky_get-sticky_set (tier, d) (tier, d) entry m₂.sticky,
      )

  next-hit :
      (m : ProxyManager State) (tier : Tier) (d : String) (now until : ℕ) (ip : String)
      → sticky_get (tier, d) m.sticky ≡ some (record { ip = ip; expires_at = until })
      → now < until
      → is_healthy 𝓢 m now ip ≡ true
      → next 𝓢 m tier (some d) now ≡ (some ip, m)
  unfolding next
  next-hit m tier d now until ip e within h = rw (e, next) (rw (lt→ltb now until within, h))

  next-miss :
      (m : ProxyManager State) (tier : Tier) (d : String) (now : ℕ)
      → sticky_get (tier, d) m.sticky ≡ none
      → next 𝓢 m tier (some d) now ≡ assign 𝓢 m tier (some d) now
  unfolding next
  next-miss m tier d now e = rw (e, next)

  -- A domain that had no assignment keeps the proxy that it is given for the whole window, as long
  -- as that proxy is not cooling, and asking again changes nothing.
  pub next-sticky :
      (m : ProxyManager State) (tier : Tier) (d : String) (now later : ℕ) (ip : String)
      → sticky_get (tier, d) m.sticky ≡ none
      → (next 𝓢 m tier (some d) now).0 ≡ some ip
      → later < now + m.sticky_window_ms
      → let m₁ = (next 𝓢 m tier (some d) now).1 in
        is_healthy 𝓢 m₁ later ip ≡ true → next 𝓢 m₁ tier (some d) later ≡ (some ip, m₁)
  next-sticky m tier d now later ip fresh e within h =
      let m₁ = (next 𝓢 m tier (some d) now).1 in
      let miss = next-miss m tier d now fresh in
      next-hit m₁ tier d later (now + m.sticky_window_ms) ip
        (rw miss (assign-assigns m tier d now ip (rw miss at e))) within h

  -- `k` calls of `next` with no domain.
  pub ask_times : ProxyManager State → Tier → ℕ → ℕ → List (Option String)
  ask_times m tier now zero = []
  ask_times m tier now (suc k) =
      let (out, m₁) = next 𝓢 m tier none now in out ∷ ask_times m₁ tier now k

  abbrev pub AllHealthy : ProxyManager State → Tier → ℕ → Type 0
  AllHealthy m tier now = all_of (is_healthy 𝓢 m now) (pool_for 𝓢 m tier) ≡ true

  -- One call takes the proxy under the cursor.
  next-turn :
      (m : ProxyManager State) (tier : Tier) (now : ℕ)
      → 0 < length (pool_for 𝓢 m tier)
      → AllHealthy m tier now
      → let pool = pool_for 𝓢 m tier in
        let c = cursor_of 𝓢 m tier in
        let (out, m₁) = next 𝓢 m tier none now in
        (out ≡ some (get_or pool (c % length pool) ""))
        × (cursor_of 𝓢 m₁ tier ≡ (c % length pool + 1) % length pool)
        × (pool_for 𝓢 m₁ tier ≡ pool)
        × (m₁.store ≡ m.store)
  unfolding next assign remember pick_healthy pool_for
  next-turn m datacenter now ne all =
      let pool = m.datacenter_urls in
      let c = m.datacenter_cursor in
      let h = all_of-get_or (is_healthy 𝓢 m now) pool (c % length pool) "" all (mod-lt c ne) in
      ground (arith, scan-first (is_healthy 𝓢 m now) pool c (length pool) ne h)
  next-turn m residential now ne all =
      let pool = m.residential_urls in
      let c = m.residential_cursor in
      let h = all_of-get_or (is_healthy 𝓢 m now) pool (c % length pool) "" all (mod-lt c ne) in
      ground (arith, scan-first (is_healthy 𝓢 m now) pool c (length pool) ne h)

  AllHealthy-same :
      (m m' : ProxyManager State) (tier : Tier) (now : ℕ)
      → pool_for 𝓢 m' tier ≡ pool_for 𝓢 m tier
      → m'.store ≡ m.store
      → AllHealthy m tier now
      → AllHealthy m' tier now
  unfolding is_healthy
  AllHealthy-same m m' tier now p e all = rw p (
      ap (λ (s : State). all_of (λ ip. leb (get s ip).cooldown_until now) (pool_for 𝓢 m tier)) e
      ∙ all)

  -- The `j`th of `k` calls takes the proxy `j` places after the cursor.
  ask_times-nth :
      (m : ProxyManager State) (tier : Tier) (now k j : ℕ)
      → 0 < length (pool_for 𝓢 m tier)
      → AllHealthy m tier now
      → j < k
      → let pool = pool_for 𝓢 m tier in
        get_or (ask_times m tier now k) j none
        ≡ some (get_or pool ((cursor_of 𝓢 m tier + j) % length pool) "")
  unfolding ask_times
  ask_times-nth m tier now zero j ne all lt = elim lt [ ]
  ask_times-nth m tier now (suc k) zero ne all lt = rw add-zero (next-turn m tier now ne all).0
  ask_times-nth m tier now (suc k) (suc j) ne all lt =
      let m₁ = (next 𝓢 m tier none now).1 in
      let (out, cursor, pool, store) = next-turn m tier now ne all in
      let n = length (pool_for 𝓢 m tier) in
      let ih =
        ask_times-nth m₁ tier now k j (rw pool ne) (AllHealthy-same m m₁ tier now pool store all)
          (omega arith) in
      ih ∙ rw (pool, cursor, turn_suc (cursor_of 𝓢 m tier) j n) refl

  length-ask_times :
      (m : ProxyManager State) (tier : Tier) (now k : ℕ) → length (ask_times m tier now k) ≡ k
  unfolding ask_times
  length-ask_times m tier now zero = refl
  length-ask_times m tier now (suc k) =
      ap suc (length-ask_times (next 𝓢 m tier none now).1 tier now k)

  -- While a whole tier is healthy, as many calls as it has proxies hand out every one of them.
  pub ask_times-fair :
      (m : ProxyManager State) (tier : Tier) (now i : ℕ)
      → IsWellFormed 𝓢 m
      → AllHealthy m tier now
      → i < length (pool_for 𝓢 m tier)
      → let pool = pool_for 𝓢 m tier in
        any_of (hands_out (get_or pool i "")) (ask_times m tier now (length pool)) ≡ true
  ask_times-fair m tier now i v all hi =
      let pool = pool_for 𝓢 m tier in
      let n = length pool in
      let (o, below, reached) =
        turn (is_healthy 𝓢 m now) pool (cursor_of 𝓢 m tier) n i
          (cursor_fits 𝓢 m tier v (omega arith)) hi in
      let outs = ask_times m tier now n in
      get_or-any_of (hands_out (get_or pool i "")) outs o none
        (rw (length-ask_times m tier now n) below)
        (rw (ask_times-nth m tier now n o (omega arith) all below, reached)
          (str_eq_refl (get_or pool i "")))
