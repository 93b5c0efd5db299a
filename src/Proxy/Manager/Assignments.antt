-- ===== src/Proxy/Manager/Assignments.antt =====
-- proxy/manager.ts, the map of sticky assignments: its laws, and that it names known proxies only.
use new_specter.Proxy.Health.{ProxyHealthStore}
use new_specter.Proxy.Manager.{
  Tier, datacenter, residential, tier_eq, StickyKey, StickyEntry, StickyMap, ProxyManager, key_eq,
  sticky_get, sticky_delete, sticky_set, evict,
}
use new_specter.Proxy.Manager.Picking.{is_known, StickyKnown}
use new_specter.Common.{
  String, ◌≡◌, refl, ◌↔◌, true, false, some, [], ◌∷◌, arith, if◌then◌else◌, str_eq, str_eq_iff,
}

tier_eq_iff : (t u : Tier) → (tier_eq t u ≡ true) ↔ (t ≡ u)
tier_eq_iff datacenter datacenter = ground arith
tier_eq_iff datacenter residential = ground arith
tier_eq_iff residential datacenter = ground arith
tier_eq_iff residential residential = ground arith

pub key_eq_iff : (j k : StickyKey) → (key_eq j k ≡ true) ↔ (j ≡ k)
key_eq_iff (t, d) (u, e) = ground (arith, tier_eq_iff t u, str_eq_iff d e)

pub sticky_get-sticky_set :
    (k j : StickyKey) (e : StickyEntry) (s : StickyMap)
    → sticky_get j (sticky_set k e s) ≡ (if key_eq k j then some e else sticky_get j s)
unfolding sticky_get sticky_set
sticky_get-sticky_set k j e [] = refl
sticky_get-sticky_set k j e ((i, f) ∷ s) =
    ground (arith, key_eq_iff k j, key_eq_iff i k, key_eq_iff i j, sticky_get-sticky_set k j e s)

pub sticky_get-evict :
    (ip : String) (k : StickyKey) (s : StickyMap) (e : StickyEntry)
    → sticky_get k (evict ip s) ≡ some e
    → str_eq e.ip ip ≡ false
unfolding sticky_get evict
sticky_get-evict ip k [] e g = cc
sticky_get-evict ip k ((j, f) ∷ s) e g = ground (arith, sticky_get-evict ip k s e)

module _ (𝓢 : ProxyHealthStore) (m : ProxyManager (𝓢.State)) where
  pub sticky_delete-known :
      (k : StickyKey) (s : StickyMap) → StickyKnown 𝓢 m s → StickyKnown 𝓢 m (sticky_delete k s)
  unfolding sticky_delete
  sticky_delete-known k [] v = v
  sticky_delete-known k ((j, e) ∷ s) v = ground (arith, sticky_delete-known k s)

  pub sticky_set-known :
      (k : StickyKey) (e : StickyEntry) (s : StickyMap)
      → is_known 𝓢 m e.ip ≡ true
      → StickyKnown 𝓢 m s
      → StickyKnown 𝓢 m (sticky_set k e s)
  unfolding sticky_set
  sticky_set-known k e [] h v = ground arith
  sticky_set-known k e ((j, f) ∷ s) h v = ground (arith, sticky_set-known k e s h)

  pub evict-known : (ip : String) (s : StickyMap) → StickyKnown 𝓢 m s → StickyKnown 𝓢 m (evict ip s)
  unfolding evict
  evict-known ip [] v = v
  evict-known ip ((j, e) ∷ s) v = ground (arith, evict-known ip s)
