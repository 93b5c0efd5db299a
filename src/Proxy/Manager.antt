-- ===== src/Proxy/Manager.antt =====
-- proxy/manager.ts, lines 92-270: `class ProxyManager`. Each method takes the time that `now()`
-- returns and gives the new state. The health store is any `ProxyHealthStore`.
pub mod Picking
pub mod Assignments
pub mod Selection
pub mod Invariant
pub mod Bans
pub mod Turns
use new_specter.Proxy.Health.{ProxyHealth, ProxyHealthStore}
use new_specter.Proxy.Rotation.{scan}
use new_specter.Common.{
  ℕ, zero, suc, ◌+◌, ◌-◌, ◌*◌, ◌/◌, ◌%◌, ◌^◌, ◌≤◌, ◌<◌, min, max, String, ◌≡◌, refl, sym, ap, subst,
  ◌∙◌, fun_ext, ◌≢◌, ◌↔◌, ◌⊎◌, inl, inr, Bool, true, false, not, ◌&&◌, ◌||◌, Option, none, some,
  List, [], ◌∷◌, ◌++◌, map, arith, ℕ_discrete, ltb, leb, ◌==◌, if◌then◌else◌, ltb→lt, lt→ltb,
  leb→le, le→leb, ==_iff, Bool-cases, Option-cases, is_some, or_else, length, get_or, any_of,
  all_of, filter_by, length-append, any_of-append, get_or-any_of, any_of-false, all_of-get_or,
  all_of-filter_by, length-filter_by-le, str_eq, str_eq_iff, str_eq_refl, str_eq_ne, includes,
}

pub data Tier : Type 0 where
  datacenter residential : Tier

abbrev pub tier_eq : Tier → Tier → Bool
tier_eq datacenter datacenter = true
tier_eq residential residential = true
tier_eq _ _ = false

pub record ProxyManagerConfig : Type 0 where
  pub datacenter_urls : List String
  pub residential_urls : List String
  pub cooldown_ms : Option ℕ
  pub sticky_window_ms : Option ℕ
  pub ban_statuses : Option (List ℕ)
  pub healthy_score : Option ℕ
  pub penalty_per_ban : Option ℕ
  pub recovery_per_ok : Option ℕ

-- The fields that the constructor fills in and nothing changes afterwards.
pub record Settings : Type 0 where
  pub datacenter_urls : List String
  pub residential_urls : List String
  pub cooldown_ms : ℕ
  pub sticky_window_ms : ℕ
  pub ban_statuses : List ℕ
  pub healthy_score : ℕ
  pub penalty_per_ban : ℕ
  pub recovery_per_ok : ℕ

pub record StickyEntry : Type 0 where
  pub ip : String
  pub expires_at : ℕ

-- `${tier}:${domain}`, kept as its two parts.
abbrev pub StickyKey : Type 0
StickyKey = Tier × String

abbrev pub key_eq : StickyKey → StickyKey → Bool
key_eq (t, d) (u, e) = tier_eq t u && str_eq d e

abbrev pub StickyMap : Type 0
StickyMap = List (StickyKey × StickyEntry)

pub record ProxyManager (S : Type 0) : Type 0 where
  pub settings : Settings
  pub open settings use *
  pub store : S
  pub datacenter_cursor : ℕ
  pub residential_cursor : ℕ
  pub sticky : StickyMap

abbrev pub captcha_status : ℕ
captcha_status = 0

-- The constructor. `none` is the exception on a configuration with no proxy.
unfoldable pub make_manager : {S : Type 0} → ProxyManagerConfig → S → Option (ProxyManager S)
make_manager config store =
    if length config.datacenter_urls == 0 && length config.residential_urls == 0
    then none
    else some (record {
      settings = record {
        datacenter_urls = config.datacenter_urls;
        residential_urls = config.residential_urls;
        cooldown_ms = or_else config.cooldown_ms (5 * 60_000);
        sticky_window_ms = or_else config.sticky_window_ms 30_000;
        ban_statuses = or_else config.ban_statuses (403 ∷ 429 ∷ captcha_status ∷ []);
        healthy_score = or_else config.healthy_score 100;
        penalty_per_ban = or_else config.penalty_per_ban 50;
        recovery_per_ok = or_else config.recovery_per_ok 10;
      };
      store = store;
      datacenter_cursor = 0;
      residential_cursor = 0;
      sticky = [];
    })

unfoldable pub sticky_get : StickyKey → StickyMap → Option StickyEntry
sticky_get k [] = none
sticky_get k ((j, e) ∷ m) = if key_eq j k then some e else sticky_get k m

unfoldable pub sticky_delete : StickyKey → StickyMap → StickyMap
sticky_delete k [] = []
sticky_delete k ((j, e) ∷ m) = if key_eq j k then sticky_delete k m else (j, e) ∷ sticky_delete k m

unfoldable pub sticky_set : StickyKey → StickyEntry → StickyMap → StickyMap
sticky_set k e [] = (k, e) ∷ []
sticky_set k e ((j, f) ∷ m) = if key_eq j k then (k, e) ∷ m else (j, f) ∷ sticky_set k e m

-- The loop of `reportFailure`: every assignment to this proxy goes.
unfoldable pub evict : String → StickyMap → StickyMap
evict ip [] = []
evict ip ((j, e) ∷ m) = if str_eq e.ip ip then evict ip m else (j, e) ∷ evict ip m

abbrev pub other_tier : Tier → Tier
other_tier datacenter = residential
other_tier residential = datacenter

module _ (𝓢 : ProxyHealthStore) where
  open 𝓢 use {State, get, set}

  unfoldable pub pool_for : ProxyManager State → Tier → List String
  pool_for m datacenter = m.datacenter_urls
  pool_for m residential = m.residential_urls

  unfoldable pub is_healthy : ProxyManager State → ℕ → String → Bool
  is_healthy m now ip = leb (get m.store ip).cooldown_until now

  abbrev pub cursor_of : ProxyManager State → Tier → ℕ
  cursor_of m datacenter = m.datacenter_cursor
  cursor_of m residential = m.residential_cursor

  abbrev pub with_cursor : ProxyManager State → Tier → ℕ → ProxyManager State
  with_cursor m datacenter c = record m { datacenter_cursor = c }
  with_cursor m residential c = record m { residential_cursor = c }

  unfoldable pub pick_healthy : ProxyManager State → Tier → ℕ → Option String × ProxyManager State
  pick_healthy m tier now =
      let pool = pool_for m tier in
      if length pool == 0
      then (none, m)
      else elim (scan (is_healthy m now) pool (cursor_of m tier) 0 (length pool)) [
        | none ↦ (none, m)
        | some (ip, c) ↦ (some ip, with_cursor m tier c)
      ]

  -- Part 3 of `next`: the assignment is recorded if a domain was given.
  unfoldable pub remember :
      ProxyManager State → Tier → Option String → ℕ → String → ProxyManager State
  remember m tier none now ip = m
  remember m tier (some domain) now ip = record m {
    sticky =
        sticky_set (tier, domain) (record { ip = ip; expires_at = now + m.sticky_window_ms })
          m.sticky;
  }

  -- Parts 2 and 3 of `next`. `none` is the exception.
  unfoldable pub assign :
      ProxyManager State → Tier → Option String → ℕ → Option String × ProxyManager State
  assign m tier domain now =
      let (first, m₁) = pick_healthy m tier now in
      elim first [
        | some ip ↦ (some ip, remember m₁ tier domain now ip)
        | none ↦
            let (second, m₂) = pick_healthy m₁ (other_tier tier) now in
            elim second [ some ip ↦ (some ip, remember m₂ tier domain now ip) | none ↦ (none, m₂) ]
      ]

  unfoldable pub next :
      ProxyManager State → Tier → Option String → ℕ → Option String × ProxyManager State
  next m tier none now = assign m tier none now
  next m tier (some domain) now = elim (sticky_get (tier, domain) m.sticky) [
    | none ↦ assign m tier (some domain) now
    | some e ↦
        if ltb now e.expires_at && is_healthy m now e.ip
        then (some e.ip, m)
        else assign (record m { sticky = sticky_delete (tier, domain) m.sticky }) tier (some domain)
            now
  ]

  unfoldable pub report_failure : ProxyManager State → String → ℕ → ProxyManager State
  report_failure m ip now =
      let h = get m.store ip in
      record m {
        store =
            set m.store ip (record {
              score = h.score - m.penalty_per_ban;
              cooldown_until = now + m.cooldown_ms;
            });
        sticky = evict ip m.sticky;
      }

  unfoldable pub report_success : ProxyManager State → String → ProxyManager State
  report_success m ip =
      let h = get m.store ip in
      record m {
        store = set m.store ip (record {
          score = min m.healthy_score (h.score + m.recovery_per_ok);
          cooldown_until = 0;
        });
      }

  unfoldable pub report_result : ProxyManager State → String → ℕ → ℕ → ProxyManager State
  report_result m ip status now =
      if any_of (λ s. s == status) m.ban_statuses
      then report_failure m ip now
      else report_success m ip
