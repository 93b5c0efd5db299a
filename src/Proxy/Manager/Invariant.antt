-- ===== src/Proxy/Manager/Invariant.antt =====
-- proxy/manager.ts: sequences of calls of the manager, and its well-formedness.
use new_specter.Proxy.Health.{ProxyHealthStore}
use new_specter.Proxy.Manager.{
  Tier, Settings, ProxyManager, ProxyManagerConfig, make_manager, sticky_get, other_tier, pool_for,
  is_healthy, pick_healthy, remember, assign, next, report_failure, report_success, report_result,
}
use new_specter.Proxy.Manager.Picking.{
  is_known, IsWellFormed, pick_healthy-keeps, pick_healthy-IsWellFormed,
}
use new_specter.Proxy.Manager.Assignments.{sticky_set-known, evict-known}
use new_specter.Proxy.Manager.Selection.{
  next-keeps, without_assignment, without_assignment-IsWellFormed, pick_healthy-IsServable,
}
use new_specter.Common.{
  ℕ, ◌+◌, String, ◌≡◌, ap, ◌∙◌, inl, inr, true, ◌&&◌, ◌||◌, Option, none, some, List, [], ◌∷◌,
  arith, ltb, Bool-cases, Option-cases, includes,
}

-- One call of the public interface, with the time at which it is made.
pub data Call : Type 0 where
  asks : Tier → Option String → ℕ → Call
  reports : String → ℕ → ℕ → Call

abbrev pub call_time : Call → ℕ
call_time (asks tier domain now) = now
call_time (reports ip status now) = now

module _ (𝓢 : ProxyHealthStore) where
  open 𝓢 use {State, get, set}

  unfoldable pub step : ProxyManager State → Call → Option String × ProxyManager State
  step m (asks tier domain now) = next 𝓢 m tier domain now
  step m (reports ip status now) = (none, report_result 𝓢 m ip status now)

  -- What a sequence of calls hands out, and the manager after it.
  unfoldable pub run : ProxyManager State → List Call → List (Option String) × ProxyManager State
  run m [] = ([], m)
  run m (c ∷ cs) = let (out, m₁) = step m c in let (outs, m₂) = run m₁ cs in (out ∷ outs, m₂)

  pub make_manager-IsWellFormed :
      (config : ProxyManagerConfig) (store : State) (m : ProxyManager State)
      → make_manager config store ≡ some m
      → IsWellFormed 𝓢 m
  unfolding make_manager pool_for
  make_manager-IsWellFormed config store m e = ground arith

  remember-IsWellFormed :
      (m : ProxyManager State) (tier : Tier) (domain : Option String) (now : ℕ) (ip : String)
      → is_known 𝓢 m ip ≡ true
      → IsWellFormed 𝓢 m
      → IsWellFormed 𝓢 (remember 𝓢 m tier domain now ip)
  unfolding remember pool_for
  remember-IsWellFormed m tier none now ip k v = v
  remember-IsWellFormed m tier (some d) now ip k v = record {
    datacenter_fits = v.datacenter_fits;
    residential_fits = v.residential_fits;
    sticky_known =
        sticky_set-known 𝓢 m (tier, d) (record { ip = ip; expires_at = now + m.sticky_window_ms })
          m.sticky k v.sticky_known;
  }

  is_known-same :
      (m m' : ProxyManager State) (ip : String)
      → m'.settings ≡ m.settings
      → is_known 𝓢 m ip ≡ true
      → is_known 𝓢 m' ip ≡ true
  is_known-same m m' ip e k =
      ap (λ (c : Settings). includes ip c.datacenter_urls || includes ip c.residential_urls) e ∙ k

  assign-IsWellFormed :
      (m : ProxyManager State) (tier : Tier) (domain : Option String) (now : ℕ)
      → IsWellFormed 𝓢 m
      → IsWellFormed 𝓢 (assign 𝓢 m tier domain now).1
  unfolding assign
  assign-IsWellFormed m tier domain now v =
      let m₁ = (pick_healthy 𝓢 m tier now).1 in
      let m₂ = (pick_healthy 𝓢 m₁ (other_tier tier) now).1 in
      let v₁ = pick_healthy-IsWellFormed 𝓢 m tier now v in
      let v₂ = pick_healthy-IsWellFormed 𝓢 m₁ (other_tier tier) now v₁ in
      let same₁ = (pick_healthy-keeps 𝓢 m tier now).0.1 in
      let same₂ = (pick_healthy-keeps 𝓢 m₁ (other_tier tier) now).0.1 in
      elim (Option-cases (pick_healthy 𝓢 m tier now).0) [
        | inr (ip, f) ↦
            rw (f, assign)
              (remember-IsWellFormed m₁ tier domain now ip
                (is_known-same m m₁ ip same₁ (pick_healthy-IsServable 𝓢 m tier now ip f).1) v₁)
        | inl e ↦
            rw (e, assign)
              (elim (Option-cases (pick_healthy 𝓢 m₁ (other_tier tier) now).0) [
                | inl f ↦ rw f v₂
                | inr (ip, f) ↦ rw f (
                    remember-IsWellFormed m₂ tier domain now ip
                      (is_known-same m₁ m₂ ip same₂
                        (pick_healthy-IsServable 𝓢 m₁ (other_tier tier) now ip f).1)
                      v₂)
              ])
      ]

  pub next-IsWellFormed :
      (m : ProxyManager State) (tier : Tier) (domain : Option String) (now : ℕ)
      → IsWellFormed 𝓢 m
      → IsWellFormed 𝓢 (next 𝓢 m tier domain now).1
  unfolding next
  next-IsWellFormed m tier none now v = assign-IsWellFormed m tier none now v
  next-IsWellFormed m tier (some d) now v =
      let kept = assign-IsWellFormed m tier (some d) now v in
      let renewed =
        assign-IsWellFormed (without_assignment 𝓢 m (tier, d)) tier (some d) now
          (without_assignment-IsWellFormed 𝓢 m (tier, d) v) in
      elim (Option-cases (sticky_get (tier, d) m.sticky)) [
        | inl f ↦ rw (f, next) kept
        | inr (e, f) ↦
            rw (f, next)
              (elim (Bool-cases (ltb now e.expires_at && is_healthy 𝓢 m now e.ip)) [
                | inl live ↦ rw live v
                | inr stale ↦ rw stale renewed
              ])
      ]

  pub report_result-IsWellFormed :
      (m : ProxyManager State) (ip : String) (status now : ℕ)
      → IsWellFormed 𝓢 m
      → IsWellFormed 𝓢 (report_result 𝓢 m ip status now)
  unfolding report_result report_failure report_success pool_for
  report_result-IsWellFormed m ip status now v =
      ground (arith, evict-known 𝓢 m ip m.sticky v.sticky_known)

  pub step-IsWellFormed :
      (m : ProxyManager State) (c : Call) → IsWellFormed 𝓢 m → IsWellFormed 𝓢 (step m c).1
  unfolding step
  step-IsWellFormed m (asks tier domain now) v = next-IsWellFormed m tier domain now v
  step-IsWellFormed m (reports ip status now) v = report_result-IsWellFormed m ip status now v

  -- Every sequence of calls keeps the cursors inside their pools and the sticky assignments on
  -- configured proxies.
  pub run-IsWellFormed :
      (m : ProxyManager State) (cs : List Call) → IsWellFormed 𝓢 m → IsWellFormed 𝓢 (run m cs).1
  unfolding run
  run-IsWellFormed m [] v = v
  run-IsWellFormed m (c ∷ cs) v = run-IsWellFormed (step m c).1 cs (step-IsWellFormed m c v)

  pub step-settings : (m : ProxyManager State) (c : Call) → (step m c).1.settings ≡ m.settings
  unfolding step report_result report_failure report_success
  step-settings m (asks tier domain now) = (next-keeps 𝓢 m tier domain now).1
  step-settings m (reports ip status now) = ground arith
