-- ===== src/Proxy/Manager/Picking.antt =====
-- proxy/manager.ts, `pickHealthy`: what it picks, when it fails, and what it leaves alone.
use new_specter.Proxy.Health.{ProxyHealthStore}
use new_specter.Proxy.Rotation.{scan, scan-some, scan-none_iff}
use new_specter.Proxy.Manager.{
  Tier, datacenter, residential, StickyKey, StickyEntry, StickyMap, ProxyManager, pool_for,
  is_healthy, cursor_of, pick_healthy,
}
use new_specter.Common.{
  ℕ, ◌<◌, String, ◌≡◌, ◌↔◌, inl, inr, Bool, true, false, ◌||◌, none, some, arith, ◌==◌, Bool-cases,
  Option-cases, length, any_of, all_of, any_of-false, includes,
}

module _ (𝓢 : ProxyHealthStore) where
  open 𝓢 use {State, get, set}

  -- A cursor stands inside its pool, if the pool is not empty.
  abbrev pub CursorFits : ProxyManager State → Tier → Type 0
  CursorFits m tier =
      0 < length (pool_for 𝓢 m tier) → cursor_of 𝓢 m tier < length (pool_for 𝓢 m tier)

  -- One of the configured proxies.
  abbrev pub is_known : ProxyManager State → String → Bool
  is_known m ip = includes ip m.datacenter_urls || includes ip m.residential_urls

  abbrev pub StickyKnown : ProxyManager State → StickyMap → Type 0
  StickyKnown m s = all_of (λ (e : StickyKey × StickyEntry). is_known m e.1.ip) s ≡ true

  pub record IsWellFormed (m : ProxyManager State) : Type 0 where
    pub datacenter_fits : CursorFits m datacenter
    pub residential_fits : CursorFits m residential
    pub sticky_known : StickyKnown m m.sticky

  pub cursor_fits : (m : ProxyManager State) (tier : Tier) → IsWellFormed m → CursorFits m tier
  cursor_fits m datacenter v = v.datacenter_fits
  cursor_fits m residential v = v.residential_fits

  pub pick_healthy-some :
      (m : ProxyManager State) (tier : Tier) (now : ℕ) {ip : String}
      → (pick_healthy 𝓢 m tier now).0 ≡ some ip
      → (is_healthy 𝓢 m now ip ≡ true) × (includes ip (pool_for 𝓢 m tier) ≡ true)
  unfolding pick_healthy
  pick_healthy-some m tier now {ip} e =
      let pool = pool_for 𝓢 m tier in
      elim (Option-cases (scan (is_healthy 𝓢 m now) pool (cursor_of 𝓢 m tier) 0 (length pool))) [
        | inl f ↦ ground (arith, f)
        | inr (r, f) ↦ ground (
          arith,
          f,
          scan-some (is_healthy 𝓢 m now) pool (cursor_of 𝓢 m tier) 0 (length pool) {ip = r.0}
              {c = r.1},
        )
      ]

  pub pick_healthy-none_iff :
      (m : ProxyManager State) (tier : Tier) (now : ℕ)
      → CursorFits m tier
      → ((pick_healthy 𝓢 m tier now).0 ≡ none)
        ↔ (any_of (is_healthy 𝓢 m now) (pool_for 𝓢 m tier) ≡ false)
  unfolding pick_healthy
  pick_healthy-none_iff m tier now fits =
      let pool = pool_for 𝓢 m tier in
      elim (Bool-cases (length pool == 0)) [
        | inl empty ↦
            ground (arith, any_of-false (is_healthy 𝓢 m now) pool "" λ i h. absurd (ground arith))
        | inr full ↦
            let turn =
              scan-none_iff (is_healthy 𝓢 m now) pool (cursor_of 𝓢 m tier) (fits (ground arith)) in
            (λ e. turn.0 (ground arith), λ e. ground (arith, turn.1 e))
      ]

  -- Picking moves one cursor and touches nothing else.
  abbrev pub SameBut : ProxyManager State → ProxyManager State → Type 0
  SameBut m m' = (m'.store ≡ m.store) × (m'.settings ≡ m.settings)

  pub pick_healthy-keeps :
      (m : ProxyManager State) (tier : Tier) (now : ℕ)
      → let m' = (pick_healthy 𝓢 m tier now).1 in SameBut m m' × (m'.sticky ≡ m.sticky)
  unfolding pick_healthy
  pick_healthy-keeps m datacenter now = ground arith
  pick_healthy-keeps m residential now = ground arith

  pub pick_healthy-IsWellFormed :
      (m : ProxyManager State) (tier : Tier) (now : ℕ)
      → IsWellFormed m
      → IsWellFormed (pick_healthy 𝓢 m tier now).1
  unfolding pick_healthy pool_for
  pick_healthy-IsWellFormed m datacenter now v =
      let pool = m.datacenter_urls in
      elim (Option-cases (scan (is_healthy 𝓢 m now) pool m.datacenter_cursor 0 (length pool))) [
        | inl f ↦ ground (arith, f)
        | inr (r, f) ↦ ground (
          arith,
          f,
          scan-some (is_healthy 𝓢 m now) pool m.datacenter_cursor 0 (length pool) {ip = r.0}
              {c = r.1},
        )
      ]
  pick_healthy-IsWellFormed m residential now v =
      let pool = m.residential_urls in
      elim (Option-cases (scan (is_healthy 𝓢 m now) pool m.residential_cursor 0 (length pool))) [
        | inl f ↦ ground (arith, f)
        | inr (r, f) ↦ ground (
          arith,
          f,
          scan-some (is_healthy 𝓢 m now) pool m.residential_cursor 0 (length pool) {ip = r.0}
              {c = r.1},
        )
      ]
