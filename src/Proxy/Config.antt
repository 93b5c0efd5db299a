-- ===== src/Proxy/Config.antt =====
-- proxy/config.ts, and getProxyManager and selectProxy of proxy/runtime.ts: from the environment to
-- the manager of a process. `Number` on a text is a parameter, `none` where it is not finite.
use new_specter.Proxy.Health.{ProxyHealthStore}
use new_specter.Proxy.Manager.{ProxyManagerConfig, ProxyManager, make_manager}
use new_specter.Proxy.Manager.Picking.{IsWellFormed}
use new_specter.Proxy.Manager.Invariant.{make_manager-IsWellFormed}
use Prim.Native.Char.{code}
use new_specter.Common.{split_at}
use new_specter.Common.{
  ℕ, String, ◌≡◌, refl, ◌≢◌, inl, inr, Bool, true, not, ◌&&◌, ◌||◌, Option, none, some, List, [],
  ◌∷◌, map, arith, leb, ◌==◌, if◌then◌else◌, Option-cases, or_else, length, all_of, filter_by,
  str_eq,
}

abbrev pub is_blank : ℕ → Bool
is_blank c = c == 32 || (leb 9 c && leb c 13)

abbrev pub trim_left : String → String
trim_left String.[] = String.[]
trim_left (String.◌∷◌ c s) =
    let rest = trim_left s in if is_blank (code c) then rest else String.◌∷◌ c s

abbrev pub trim_right : String → String
trim_right String.[] = String.[]
trim_right (String.◌∷◌ c s) =
    let rest = trim_right s in
    if is_blank (code c) && str_eq rest "" then String.[] else String.◌∷◌ c rest

-- `text.trim()`, with the white space of ASCII.
abbrev pub trim : String → String
trim s = trim_right (trim_left s)

abbrev pub is_filled : String → Bool
is_filled s = not (str_eq s "")

-- `list`: the entries of a list with commas.
unfoldable pub url_list : Option String → Option String → List String
unfolding split_at
url_list plural singular =
    let raw = or_else plural (or_else singular "") in
    filter_by is_filled (map trim (split_at b',' raw))

pub record ProxyEnv : Type 0 where
  pub datacenter_urls : Option String
  pub datacenter_url : Option String
  pub residential_urls : Option String
  pub residential_url : Option String
  pub cooldown_ms : Option String
  pub sticky_window_ms : Option String

module _ (number : String → Option ℕ) where
  unfoldable pub num : Option String → Option ℕ
  num none = none
  num (some v) = number v

  unfoldable pub parse_proxy_config : ProxyEnv → Option ProxyManagerConfig
  unfolding url_list num
  parse_proxy_config env =
      let datacenter = url_list env.datacenter_urls env.datacenter_url in
      let residential = url_list env.residential_urls env.residential_url in
      if length datacenter == 0 && length residential == 0
      then none
      else some (record {
        datacenter_urls = datacenter;
        residential_urls = residential;
        cooldown_ms = num env.cooldown_ms;
        sticky_window_ms = num env.sticky_window_ms;
        ban_statuses = none;
        healthy_score = none;
        penalty_per_ban = none;
        recovery_per_ok = none;
      })

  -- What a process keeps: `none` until it was built, and then the manager, if there is one.
  unfoldable pub get_proxy_manager :
      {S : Type 0} → Option (Option (ProxyManager S)) → ProxyEnv → S → Option (ProxyManager S)
  unfolding parse_proxy_config make_manager
  get_proxy_manager (some built) env store = built
  get_proxy_manager none env store = elim (parse_proxy_config env) [
    | none ↦ none
    | some cfg ↦ make_manager cfg store
  ]

  is_filled-kept : (xs : List String) → all_of is_filled (filter_by is_filled xs) ≡ true
  is_filled-kept [] = refl
  is_filled-kept (x ∷ xs) = ground (arith, is_filled-kept xs)

  url_list-filled : (p s : Option String) → all_of is_filled (url_list p s) ≡ true
  unfolding url_list
  url_list-filled p s = is_filled-kept (map trim (split_at b',' (or_else p (or_else s ""))))

  parsed_urls :
      (env : ProxyEnv) (cfg : ProxyManagerConfig)
      → parse_proxy_config env ≡ some cfg
      → (all_of is_filled cfg.datacenter_urls ≡ true)
        × (all_of is_filled cfg.residential_urls ≡ true)
  unfolding parse_proxy_config
  parsed_urls env cfg e =
      let d = url_list-filled env.datacenter_urls env.datacenter_url in
      let r = url_list-filled env.residential_urls env.residential_url in
      (ground arith, ground arith)

  parsed_makes :
      {S : Type 0} (env : ProxyEnv) (cfg : ProxyManagerConfig) (store : S)
      → parse_proxy_config env ≡ some cfg
      → make_manager cfg store ≢ none
  unfolding parse_proxy_config make_manager
  parsed_makes env cfg store e f = ground arith

  built :
      {S : Type 0} (env : ProxyEnv) (cfg : ProxyManagerConfig) (store : S) (m : ProxyManager S)
      → parse_proxy_config env ≡ some cfg
      → make_manager cfg store ≡ some m
      → get_proxy_manager none env store ≡ some m
  unfolding get_proxy_manager
  built env cfg store m e f = rw (e, get_proxy_manager) f

  -- A configuration that the environment gives has a proxy and no empty URL, so a manager is built
  -- from it without an error, and the manager is well formed.
  pub configured_manager :
      (𝓢 : ProxyHealthStore) (env : ProxyEnv) (store : 𝓢.State) (cfg : ProxyManagerConfig)
      → parse_proxy_config env ≡ some cfg
      → (all_of is_filled cfg.datacenter_urls ≡ true)
        × (all_of is_filled cfg.residential_urls ≡ true)
        × ((m : ProxyManager 𝓢.State) × (get_proxy_manager none env store ≡ some m)
            × IsWellFormed 𝓢 m)
  configured_manager 𝓢 env store cfg e =
      let (d, r) = parsed_urls env cfg e in
      (
        d,
        r,
        elim (Option-cases (make_manager cfg store)) [
          | inl f ↦ elim (parsed_makes env cfg store e f) [ ]
          | inr (m, f) ↦ (m, built env cfg store m e f, make_manager-IsWellFormed 𝓢 cfg store m f)
        ],
      )
