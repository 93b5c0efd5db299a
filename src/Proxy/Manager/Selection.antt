-- ===== src/Proxy/Manager/Selection.antt =====
-- proxy/manager.ts, `next`: which proxy is handed out, and when none is.
use new_specter.Proxy.Health.{ProxyHealthStore}
use new_specter.Proxy.Manager.{
  Tier, datacenter, residential, StickyKey, StickyEntry, StickyMap, Settings, ProxyManager,
  sticky_get, sticky_delete, other_tier, pool_for, is_healthy, pick_healthy, remember, assign, next,
}
use new_specter.Proxy.Manager.Picking.{
  is_known, StickyKnown, IsWellFormed, cursor_fits, pick_healthy-some, pick_healthy-none_iff,
  SameBut, pick_healthy-keeps, pick_healthy-IsWellFormed,
}
use new_specter.Proxy.Manager.Assignments.{sticky_delete-known}
use new_specter.Common.{
  includes-any_of, ℕ, String, ◌≡◌, refl, ap, ◌∙◌, ◌↔◌, inl, inr, Bool, true, false, Option, none,
  some, [], ◌∷◌, arith, leb, Option-cases, any_of, includes,
}

module _ (𝓢 : ProxyHealthStore) where
  open 𝓢 use {State, get, set}

  pub remember-keeps :
      (m : ProxyManager State) (tier : Tier) (domain : Option String) (now : ℕ) (ip : String)
      → SameBut 𝓢 m (remember 𝓢 m tier domain now ip)
  unfolding remember
  remember-keeps m tier none now ip = (refl, refl)
  remember-keeps m tier (some d) now ip = (refl, refl)

  pub assign-keeps :
      (m : ProxyManager State) (tier : Tier) (domain : Option String) (now : ℕ)
      → SameBut 𝓢 m (assign 𝓢 m tier domain now).1
  unfolding assign
  assign-keeps m tier domain now =
      let m₁ = (pick_healthy 𝓢 m tier now).1 in
      let m₂ = (pick_healthy 𝓢 m₁ (other_tier tier) now).1 in
      grind (arith, pick_healthy-keeps 𝓢, remember-keeps)

  abbrev pub without_assignment : ProxyManager State → StickyKey → ProxyManager State
  without_assignment m k = record m { sticky = sticky_delete k m.sticky }

  pub next-keeps :
      (m : ProxyManager State) (tier : Tier) (domain : Option String) (now : ℕ)
      → SameBut 𝓢 m (next 𝓢 m tier domain now).1
  unfolding next
  next-keeps m tier none now = assign-keeps m tier none now
  next-keeps m tier (some d) now = ground (
    arith,
    assign-keeps m tier (some d) now,
    assign-keeps (without_assignment m (tier, d)) tier (some d) now,
  )

  pub sticky_get-known :
      (m : ProxyManager State) (s : StickyMap) (k : StickyKey) (e : StickyEntry)
      → StickyKnown 𝓢 m s
      → sticky_get k s ≡ some e
      → is_known 𝓢 m e.ip ≡ true
  unfolding sticky_get
  sticky_get-known m [] k e v g = cc
  sticky_get-known m ((j, f) ∷ s) k e v g = ground (arith, sticky_get-known m s k e)

  pool_known :
      (m : ProxyManager State) (tier : Tier) (ip : String)
      → includes ip (pool_for 𝓢 m tier) ≡ true
      → is_known 𝓢 m ip ≡ true
  unfolding pool_for
  pool_known m datacenter ip e = ground arith
  pool_known m residential ip e = ground arith

  abbrev pub IsServable : ProxyManager State → ℕ → String → Type 0
  IsServable m now ip = (is_healthy 𝓢 m now ip ≡ true) × (is_known 𝓢 m ip ≡ true)

  pub pick_healthy-IsServable :
      (m : ProxyManager State) (tier : Tier) (now : ℕ) (ip : String)
      → (pick_healthy 𝓢 m tier now).0 ≡ some ip
      → IsServable m now ip
  pick_healthy-IsServable m tier now ip e =
      let p = pick_healthy-some 𝓢 m tier now e in (p.0, pool_known m tier ip p.1)

  IsServable-same :
      (m m' : ProxyManager State) (now : ℕ) (ip : String)
      → SameBut 𝓢 m m'
      → IsServable m' now ip
      → IsServable m now ip
  unfolding is_healthy
  IsServable-same m m' now ip same s = ground arith

  assign-IsServable :
      (m : ProxyManager State) (tier : Tier) (domain : Option String) (now : ℕ) (ip : String)
      → (assign 𝓢 m tier domain now).0 ≡ some ip
      → IsServable m now ip
  unfolding assign
  assign-IsServable m tier domain now ip e =
      let m₁ = (pick_healthy 𝓢 m tier now).1 in
      ground (
        arith,
        pick_healthy-IsServable m tier now ip,
        pick_healthy-IsServable m₁ (other_tier tier) now ip,
        IsServable-same m m₁ now ip (pick_healthy-keeps 𝓢 m tier now).0,
      )

  -- Whether the tier has a proxy that is not cooling.
  abbrev pub serves : ProxyManager State → ℕ → Tier → Bool
  serves m now tier = any_of (is_healthy 𝓢 m now) (pool_for 𝓢 m tier)

  abbrev pub AllCooling : ProxyManager State → ℕ → Type 0
  AllCooling m now = (serves m now datacenter ≡ false) × (serves m now residential ≡ false)

  serves-same :
      (m m' : ProxyManager State) (now : ℕ) (tier : Tier)
      → SameBut 𝓢 m m'
      → serves m' now tier ≡ serves m now tier
  unfolding is_healthy pool_for
  serves-same m m' now tier same =
      ap (λ (s : State). any_of (λ ip. leb (get s ip).cooldown_until now) (pool_for 𝓢 m' tier))
        same.0
      ∙ ap (any_of (is_healthy 𝓢 m now)) (pool m m' tier same.1)
    where
      pool :
          (n n' : ProxyManager State) (t : Tier)
          → n'.settings ≡ n.settings
          → pool_for 𝓢 n' t ≡ pool_for 𝓢 n t
      pool n n' datacenter e = ap (λ (c : Settings). c.datacenter_urls) e
      pool n n' residential e = ap (λ (c : Settings). c.residential_urls) e

  AllCooling-iff :
      (m : ProxyManager State) (now : ℕ) (tier : Tier)
      → AllCooling m now ↔ ((serves m now tier ≡ false) × (serves m now (other_tier tier) ≡ false))
  AllCooling-iff m now datacenter = (λ c. c, λ c. c)
  AllCooling-iff m now residential = (λ c. (c.1, c.0), λ c. (c.1, c.0))

  assign-none_iff :
      (m : ProxyManager State) (tier : Tier) (domain : Option String) (now : ℕ)
      → IsWellFormed 𝓢 m
      → ((assign 𝓢 m tier domain now).0 ≡ none) ↔ AllCooling m now
  unfolding assign
  assign-none_iff m tier domain now v =
      let m₁ = (pick_healthy 𝓢 m tier now).1 in
      let other = other_tier tier in
      let w = pick_healthy-IsWellFormed 𝓢 m tier now v in
      let first = pick_healthy-none_iff 𝓢 m tier now (cursor_fits 𝓢 m tier v) in
      let second = pick_healthy-none_iff 𝓢 m₁ other now (cursor_fits 𝓢 m₁ other w) in
      let same = serves-same m m₁ now other (pick_healthy-keeps 𝓢 m tier now).0 in
      let both = AllCooling-iff m now tier in ground (arith, first, second, same, both)

  -- What `next` hands out is one of the configured proxies and is not cooling, also when it is a
  -- sticky assignment or comes from the other tier.
  pub next-IsServable :
      (m : ProxyManager State) (tier : Tier) (domain : Option String) (now : ℕ) (ip : String)
      → IsWellFormed 𝓢 m
      → (next 𝓢 m tier domain now).0 ≡ some ip
      → IsServable m now ip
  unfolding next
  next-IsServable m tier none now ip v e = assign-IsServable m tier none now ip e
  next-IsServable m tier (some d) now ip v e = elim (Option-cases (sticky_get (tier, d) m.sticky)) [
    | inl f ↦ ground (arith, f, assign-IsServable m tier (some d) now ip)
    | inr (r, f) ↦ ground (
      arith,
      f,
      sticky_get-known m m.sticky (tier, d) r v.sticky_known,
      assign-IsServable (without_assignment m (tier, d)) tier (some d) now ip,
      IsServable-same m (without_assignment m (tier, d)) now ip (refl, refl),
    )
  ]

  servable_not_cooling :
      (m : ProxyManager State) (now : ℕ) (ip : String) → IsServable m now ip → ¬ AllCooling m now
  unfolding pool_for
  servable_not_cooling m now ip s c = ground (
    arith,
    includes-any_of (is_healthy 𝓢 m now) m.datacenter_urls ip,
    includes-any_of (is_healthy 𝓢 m now) m.residential_urls ip,
  )

  pub without_assignment-IsWellFormed :
      (m : ProxyManager State) (k : StickyKey)
      → IsWellFormed 𝓢 m
      → IsWellFormed 𝓢 (without_assignment m k)
  unfolding pool_for
  without_assignment-IsWellFormed m k v = record {
    datacenter_fits = v.datacenter_fits;
    residential_fits = v.residential_fits;
    sticky_known = sticky_delete-known 𝓢 m k m.sticky v.sticky_known;
  }

  -- `next` throws exactly if every proxy of both tiers is cooling.
  pub next-none_iff :
      (m : ProxyManager State) (tier : Tier) (domain : Option String) (now : ℕ)
      → IsWellFormed 𝓢 m
      → ((next 𝓢 m tier domain now).0 ≡ none) ↔ AllCooling m now
  unfolding next
  next-none_iff m tier none now v = assign-none_iff m tier none now v
  next-none_iff m tier (some d) now v = elim (Option-cases (sticky_get (tier, d) m.sticky)) [
    | inl f ↦ ground (arith, f, assign-none_iff m tier (some d) now v)
    | inr (e, f) ↦
        let rest = without_assignment m (tier, d) in
        let known = sticky_get-known m m.sticky (tier, d) e v.sticky_known f in
        ground (
          arith,
          f,
          known,
          servable_not_cooling m now e.ip,
          serves-same m rest now datacenter (refl, refl),
          serves-same m rest now residential (refl, refl),
          assign-none_iff rest tier (some d) now (without_assignment-IsWellFormed m (tier, d) v),
        )
  ]
