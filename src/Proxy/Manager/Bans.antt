-- ===== src/Proxy/Manager/Bans.antt =====
-- proxy/manager.ts, `reportFailure` and `reportSuccess`: bans, their duration, and the scores.
use new_specter.Proxy.Health.{ProxyHealth, ProxyHealthStore}
use new_specter.Proxy.Manager.{
  Settings, StickyKey, StickyEntry, ProxyManager, sticky_get, is_healthy, next, report_failure,
  report_success, report_result,
}
use new_specter.Proxy.Manager.Assignments.{sticky_get-evict}
use new_specter.Proxy.Manager.Picking.{IsWellFormed}
use new_specter.Proxy.Manager.Selection.{next-IsServable, next-keeps}
use new_specter.Proxy.Manager.Invariant.{
  Call, asks, reports, call_time, step, run, step-IsWellFormed, step-settings,
  report_result-IsWellFormed,
}
use new_specter.Common.{
  ℕ, ◌+◌, ◌-◌, ◌≤◌, min, String, ◌≡◌, refl, subst, ◌∙◌, inl, inr, Bool, true, false, not, ◌&&◌,
  Option, none, some, List, [], ◌∷◌, arith, ltb, leb, ◌==◌, Option-cases, any_of, all_of, str_eq,
  str_eq_iff, str_eq_refl,
}

-- Whether this proxy was handed out.
abbrev pub hands_out : String → Option String → Bool
hands_out ip none = false
hands_out ip (some j) = str_eq j ip

module _ (𝓢 : ProxyHealthStore) where
  open 𝓢 use {State, get, set, get-set}

  abbrev pub is_ban : Settings → ℕ → Bool
  is_ban c status = any_of (λ s. s == status) c.ban_statuses

  -- A call that reports a success of the proxy.
  abbrev pub clears : Settings → String → Call → Bool
  clears c ip (asks tier domain now) = false
  clears c ip (reports j status now) = str_eq j ip && not (is_ban c status)

  abbrev pub within_cooldown : Settings → String → ℕ → ℕ → Call → Bool
  within_cooldown c ip from until call =
      leb from (call_time call) && (ltb (call_time call) until && not (clears c ip call))

  abbrev CoolsUntil : ProxyManager State → String → ℕ → Type 0
  CoolsUntil m ip t = t ≤ (get m.store ip).cooldown_until

  abbrev pub banned_health : ProxyManager State → String → ℕ → ProxyHealth
  banned_health m ip now = record {
    score = (get m.store ip).score - m.penalty_per_ban;
    cooldown_until = now + m.cooldown_ms;
  }

  abbrev pub cleared_health : ProxyManager State → String → ProxyHealth
  cleared_health m ip = record {
    score = min m.healthy_score ((get m.store ip).score + m.recovery_per_ok);
    cooldown_until = 0;
  }

  step-CoolsUntil :
      (m : ProxyManager State) (ip : String) (from : ℕ) (c : Call)
      → within_cooldown m.settings ip from (from + m.cooldown_ms) c ≡ true
      → CoolsUntil m ip (from + m.cooldown_ms)
      → CoolsUntil (step 𝓢 m c).1 ip (from + m.cooldown_ms)
  unfolding step report_result report_failure report_success
  step-CoolsUntil m ip from (asks tier domain now) w h = rw (next-keeps 𝓢 m tier domain now).0 h
  step-CoolsUntil m ip from (reports j status now) w h = ground (
    arith,
    get-set m.store j ip (banned_health m j now),
    get-set m.store j ip (cleared_health m j),
  )

  cooling-not-handed :
      (m : ProxyManager State) (ip : String) (until : ℕ) (c : Call)
      → IsWellFormed 𝓢 m
      → ltb (call_time c) until ≡ true
      → CoolsUntil m ip until
      → hands_out ip (step 𝓢 m c).0 ≡ false
  unfolding step is_healthy
  cooling-not-handed m ip until (reports j status now) v w h = refl
  cooling-not-handed m ip until (asks tier domain now) v w h =
      elim (Option-cases (next 𝓢 m tier domain now).0) [
        | inl e ↦ rw e
        | inr (j, e) ↦
            rw e (ground (arith, str_eq_iff j ip, next-IsServable 𝓢 m tier domain now j v e))
      ]

  quiet :
      (m : ProxyManager State) (c : Settings) (ip : String) (from : ℕ) (cs : List Call)
      → m.settings ≡ c
      → IsWellFormed 𝓢 m
      → CoolsUntil m ip (from + c.cooldown_ms)
      → all_of (within_cooldown c ip from (from + c.cooldown_ms)) cs ≡ true
      → any_of (hands_out ip) (run 𝓢 m cs).0 ≡ false
  unfolding run
  quiet m c ip from [] e v h w = refl
  quiet m c ip from (call ∷ cs) e v h w =
      let m₁ = (step 𝓢 m call).1 in
      let until = from + c.cooldown_ms in
      let now : within_cooldown c ip from until call ≡ true = ground arith in
      let still : CoolsUntil m₁ ip until =
        subst (λ (d : Settings). CoolsUntil m₁ ip (from + d.cooldown_ms)) e
          (step-CoolsUntil m ip from call (rw e now) (rw e h)) in
      ground (
        arith,
        cooling-not-handed m ip until call v,
        quiet m₁ c ip from cs (step-settings 𝓢 m call ∙ e) (step-IsWellFormed 𝓢 m call v) still,
      )

  report_failure-CoolsUntil :
      (m : ProxyManager State) (ip : String) (t : ℕ)
      → CoolsUntil (report_failure 𝓢 m ip t) ip (t + m.cooldown_ms)
  unfolding report_failure
  report_failure-CoolsUntil m ip t =
      ground (arith, get-set m.store ip ip (banned_health m ip t), str_eq_refl ip)

  report_result-ban :
      (m : ProxyManager State) (ip : String) (status t : ℕ)
      → is_ban m.settings status ≡ true
      → report_result 𝓢 m ip status t ≡ report_failure 𝓢 m ip t
  unfolding report_result
  report_result-ban m ip status t b = rw b

  settings-report_result :
      (m : ProxyManager State) (ip : String) (status t : ℕ)
      → (report_result 𝓢 m ip status t).settings ≡ m.settings
  unfolding report_result report_failure report_success
  settings-report_result m ip status t = ground arith

  -- After a ban at time `t` the proxy is handed out by no sequence of calls before `t + cooldownMs`
  -- in which no success of it is reported, whatever else is asked and reported.
  pub banned_not_handed_out :
      (m : ProxyManager State) (ip : String) (status t : ℕ) (cs : List Call)
      → IsWellFormed 𝓢 m
      → is_ban m.settings status ≡ true
      → all_of (within_cooldown m.settings ip t (t + m.cooldown_ms)) cs ≡ true
      → any_of (hands_out ip) (run 𝓢 (report_result 𝓢 m ip status t) cs).0 ≡ false
  banned_not_handed_out m ip status t cs v b w =
      let m₁ = report_result 𝓢 m ip status t in
      quiet m₁ m.settings ip t cs (settings-report_result m ip status t)
        (report_result-IsWellFormed 𝓢 m ip status t v)
        (rw (report_result-ban m ip status t b) (report_failure-CoolsUntil m ip t)) w

  -- A ban also ends every sticky assignment to the proxy.
  pub report_failure-evicts :
      (m : ProxyManager State) (ip : String) (now : ℕ) (k : StickyKey) (e : StickyEntry)
      → sticky_get k (report_failure 𝓢 m ip now).sticky ≡ some e
      → str_eq e.ip ip ≡ false
  unfolding report_failure
  report_failure-evicts m ip now k e g = sticky_get-evict ip k m.sticky e g

  abbrev pub ScoresFit : ProxyManager State → Type 0
  ScoresFit m = (ip : String) → (get m.store ip).score ≤ m.healthy_score

  step-ScoresFit : (m : ProxyManager State) (c : Call) → ScoresFit m → ScoresFit (step 𝓢 m c).1
  unfolding step report_result report_failure report_success
  step-ScoresFit m (asks tier domain now) h ip =
      let (store, settings) = next-keeps 𝓢 m tier domain now in rw (store, settings) (h ip)
  step-ScoresFit m (reports j status now) h ip = ground (
    arith,
    h ip,
    h j,
    get-set m.store j ip (banned_health m j now),
    get-set m.store j ip (cleared_health m j),
  )

  -- No sequence of calls lifts a score above the score of a healthy proxy.
  pub run-ScoresFit :
      (m : ProxyManager State) (cs : List Call) → ScoresFit m → ScoresFit (run 𝓢 m cs).1
  unfolding run
  run-ScoresFit m [] h = h
  run-ScoresFit m (c ∷ cs) h = run-ScoresFit (step 𝓢 m c).1 cs (step-ScoresFit m c h)
