-- ===== src/Proxy/Tests.antt =====
-- The proxy rotation at concrete inputs: two datacenter proxies, one residential, the default store.
use new_specter.Proxy.Health.{HealthMap, in_memory_store, in_memory_get}
use new_specter.Proxy.Config.{ProxyEnv, parse_proxy_config}
use new_specter.Proxy.Rotation.{scan}
use new_specter.Proxy.Manager.{
  ProxyManagerConfig, datacenter, residential, ProxyManager, make_manager, pool_for, is_healthy,
  pick_healthy, remember, assign, next, report_result,
}
use new_specter.Proxy.Manager.Picking.{IsWellFormed}
use new_specter.Proxy.Manager.Selection.{IsServable, next-IsServable, AllCooling, next-none_iff}
use new_specter.Proxy.Manager.Invariant.{asks, reports, run, run-IsWellFormed}
use new_specter.Proxy.Manager.Bans.{hands_out, banned_not_handed_out}
use new_specter.Common.{
  ℕ, Option, String, ◌≡◌, refl, ◌↔◌, false, none, some, [], ◌∷◌, arith, any_of,
}

abbrev two_tiers : ProxyManager HealthMap
two_tiers = record {
  settings = record {
    datacenter_urls = "dc1" ∷ "dc2" ∷ [];
    residential_urls = "res1" ∷ [];
    cooldown_ms = 300_000;
    sticky_window_ms = 30_000;
    ban_statuses = 403 ∷ 429 ∷ 0 ∷ [];
    healthy_score = 100;
    penalty_per_ban = 50;
    recovery_per_ok = 10;
  };
  store = [];
  datacenter_cursor = 0;
  residential_cursor = 0;
  sticky = [];
}

built :
    make_manager
      (record {
        datacenter_urls = "dc1" ∷ "dc2" ∷ [];
        residential_urls = "res1" ∷ [];
        cooldown_ms = none;
        sticky_window_ms = none;
        ban_statuses = none;
        healthy_score = none;
        penalty_per_ban = none;
        recovery_per_ok = none;
      })
      []
    ≡ some two_tiers
unfolding make_manager
built = refl

two_tiers-IsWellFormed : IsWellFormed in_memory_store two_tiers
unfolding pool_for
two_tiers-IsWellFormed = ground arith

first_pick : (next in_memory_store two_tiers datacenter none 5).0 ≡ some "dc1"
unfolding next assign pick_healthy pool_for scan is_healthy remember in_memory_get
first_pick = refl

next-IsServable_example : IsServable in_memory_store two_tiers 5 "dc1"
next-IsServable_example =
    next-IsServable in_memory_store two_tiers datacenter none 5 "dc1" two_tiers-IsWellFormed
      first_pick

next-none_iff_example :
    ((next in_memory_store two_tiers residential (some "shop") 5).0 ≡ none)
    ↔ AllCooling in_memory_store two_tiers 5
next-none_iff_example =
    next-none_iff in_memory_store two_tiers residential (some "shop") 5 two_tiers-IsWellFormed

run-IsWellFormed_example :
    IsWellFormed in_memory_store
      (run in_memory_store two_tiers (asks datacenter (some "shop") 1 ∷ reports "dc1" 403 2 ∷ [])).1
run-IsWellFormed_example =
    run-IsWellFormed in_memory_store two_tiers
      (asks datacenter (some "shop") 1 ∷ reports "dc1" 403 2 ∷ []) two_tiers-IsWellFormed

banned_not_handed_out_example :
    any_of
      (hands_out "dc1")
      (run in_memory_store
        (report_result in_memory_store two_tiers "dc1" 403 10)
        (asks datacenter none 11 ∷ reports "dc2" 200 12 ∷ asks datacenter none 300_009 ∷ [])).0
    ≡ false
banned_not_handed_out_example =
    banned_not_handed_out in_memory_store two_tiers "dc1" 403 10
      (asks datacenter none 11 ∷ reports "dc2" 200 12 ∷ asks datacenter none 300_009 ∷ [])
      two_tiers-IsWellFormed refl refl

abbrev deployed : ProxyEnv
deployed = record {
  datacenter_urls = some " dc1, ,dc2";
  datacenter_url = none;
  residential_urls = none;
  residential_url = some "res1";
  cooldown_ms = none;
  sticky_window_ms = none;
}

abbrev no_number : String → Option ℕ
no_number t = none

abbrev deployed_config : ProxyManagerConfig
deployed_config = record {
  datacenter_urls = "dc1" ∷ "dc2" ∷ [];
  residential_urls = "res1" ∷ [];
  cooldown_ms = none;
  sticky_window_ms = none;
  ban_statuses = none;
  healthy_score = none;
  penalty_per_ban = none;
  recovery_per_ok = none;
}

parsed : parse_proxy_config no_number deployed ≡ some deployed_config
unfolding parse_proxy_config
parsed = refl
