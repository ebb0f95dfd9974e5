-- ===== src/Watch.antt =====
-- The health of the watchdog, from src/teammate_mcp/watcher.py: its pid file, its heartbeat, and
-- the start of a new one. `probe` is `os.kill(pid, 0)`; ages are milliseconds. Starting a process
-- and signalling one are actions in the answer. Each look reads the files at one moment.
pub mod Restart
use teammate_mcp.Base.{
  ltb, leb, if◌then◌else◌, Eq, ◌==◌, option_eq, nat_eq, text_eq, ℕ, ◌-◌, ◌/◌, Bool, true, false,
  not, ◌&&◌, Option, none, some, [], arith,
}
use teammate_mcp.Base.Text.{Text}
use teammate_mcp.Lease.{Probe, alive}

-- The heartbeat file, where it can be read.
pub record Heartbeat : Type 0 where
  pub ts : ℕ
  pub wake_text : Text

-- `_read_pid` reads 0 where there is no pid file.
pub record Files : Type 0 where
  pub pid : ℕ
  pub heartbeat : Option Heartbeat

pub data Health : Type 0 where
  healthy no_pidfile stale_pid no_heartbeat stale_heartbeat wake_text_changed : Health

-- `_pid_alive`: also a process of another user counts as gone.
unfoldable pub pid_alive : (ℕ → Probe) → ℕ → Bool
pid_alive probe pid = if leb pid 0 then false else elim (probe pid) [ alive ↦ true | _ ↦ false ]

-- A heartbeat of the future has a negative age.
abbrev pub is_stale : ℕ → ℕ → Heartbeat → Bool
is_stale now max_age b = ltb max_age (now - b.ts)

unfoldable pub watchdog_health : (ℕ → Probe) → Text → ℕ → ℕ → Files → Health
unfolding pid_alive
watchdog_health probe wake_text now max_age f =
    if f.pid == 0
    then no_pidfile
    else if not (pid_alive probe f.pid)
    then stale_pid
    else elim f.heartbeat [
      | none ↦ no_heartbeat
      | some b ↦
          if is_stale now max_age b
          then stale_heartbeat
          else if not (b.wake_text == wake_text)
          then wake_text_changed
          else healthy
    ]

abbrev pub is_healthy : Health → Bool
is_healthy healthy = true
is_healthy _ = false

abbrev pub is_changed : Health → Bool
is_changed wake_text_changed = true
is_changed _ = false

-- What the call did: it found a healthy watchdog, it met another call, or it started a process,
-- after it had signalled the old one or not.
pub data Ensured : Type 0 where
  kept busy : Ensured
  started : Option ℕ → Ensured

-- `older` and `newer` are the files before and under the lock, read at two times.
unfoldable pub ensure_watchdog_running :
    (ℕ → Probe) → Text → ℕ → ℕ → ℕ → Bool → Files → Files → Ensured
unfolding watchdog_health pid_alive
ensure_watchdog_running probe wake_text now later max_age lock_free older newer =
    if is_healthy (watchdog_health probe wake_text now max_age older)
    then kept
    else if not lock_free
    then busy
    else if is_healthy (watchdog_health probe wake_text later max_age newer)
    then kept
    else if is_changed (watchdog_health probe wake_text later max_age newer)
        && pid_alive probe newer.pid
    then started (some newer.pid)
    else started none
