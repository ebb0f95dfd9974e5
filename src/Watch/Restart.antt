-- ===== src/Watch/Restart.antt =====
-- When a new watchdog is started.
use teammate_mcp.Base.{
  Option-cases, option_eq, nat_eq, text_eq, ℕ, ◌+◌, ◌≤◌, ◌<◌, ◌≡◌, ◌≢◌, ◌↔◌, inl, inr, Bool, true,
  Option, some, arith,
}
use teammate_mcp.Base.Text.{Text}
use teammate_mcp.Lease.{Probe, alive}
use teammate_mcp.Watch.{
  Heartbeat, Files, healthy, wake_text_changed, pid_alive, watchdog_health, started,
  ensure_watchdog_running,
}

-- The watchdog is healthy exactly if its process runs, and its heartbeat is there, is fresh, and
-- has the wake text of this version.
pub watchdog_health_iff :
    (probe : ℕ → Probe) (wake_text : Text) (now max_age : ℕ) (f : Files)
    → (watchdog_health probe wake_text now max_age f ≡ healthy) ↔ (
        (0 < f.pid)
        × (probe f.pid ≡ alive)
        × ((b : Heartbeat) × (f.heartbeat ≡ some b)
            × (now ≤ b.ts + max_age)
            × (b.wake_text ≡ wake_text)))
unfolding watchdog_health pid_alive
watchdog_health_iff probe wake_text now max_age f = elim (Option-cases f.heartbeat) [
  | inl e ↦ (λ h. absurd (ground (arith, e, h)), λ (_, _, (b, g, _, _)). absurd (cc (e, g)))
  | inr (b, e) ↦ (
    λ h. (
      ground (arith, e, h),
      ground (arith, e, h),
      (b, e, ground (arith, e, h), ground (arith, e, h)),
    ),
    λ (p, a, (c, g, fresh, w)). ground (arith, e, g, p, a, fresh, w),
  )
]

-- A process is started only under the lock and while the watchdog is not healthy, also when it is
-- looked at a second time under the lock. A process is signalled only if it is the one of the pid
-- file, runs, and has another version's wake text.
pub ensure_watchdog_running_effect :
    (probe : ℕ → Probe) (wake_text : Text) (now later max_age : ℕ) (lock_free : Bool)
    (older newer : Files) (signalled : Option ℕ)
    → ensure_watchdog_running probe wake_text now later max_age lock_free older newer
      ≡ started signalled
    → (lock_free ≡ true)
      × (watchdog_health probe wake_text now max_age older ≢ healthy)
      × (watchdog_health probe wake_text later max_age newer ≢ healthy)
      × ((pid : ℕ)
          → signalled ≡ some pid
          → (pid ≡ newer.pid)
            × (probe pid ≡ alive)
            × (watchdog_health probe wake_text later max_age newer ≡ wake_text_changed))
unfolding ensure_watchdog_running pid_alive
ensure_watchdog_running_effect probe wake_text now later max_age lock_free older newer signalled s =
    (
      ground (arith, s),
      λ h. ground (arith, s, h),
      λ h. ground (arith, s, h),
      λ pid g. (ground (arith, s, g), ground (arith, s, g), ground (arith, s, g)),
    )
