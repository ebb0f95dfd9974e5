-- ===== src/Tests/Tools.antt =====
-- The stop hook, a session's own settings, the scan's back-off, the ledger and the watchdog.
use teammate_mcp.Base.{
  Option, is_some, option_eq, nat_eq, text_eq, ℕ, ◌≤◌, ◌≡◌, refl, ◌≢◌, ◌⊎◌, Bool, true, false, none,
  some, [], ◌∷◌,
}
use teammate_mcp.Base.Text.{Text, str}
use teammate_mcp.Base.Dict.{keys, get, put}
use teammate_mcp.Registry.{rec_eq, Rec, Policy, idle, Registry}
use teammate_mcp.Registry.Consistent.{IsConsistent}
use teammate_mcp.Work.{Work, retry, failed, queued, only}
use teammate_mcp.Mailbox.{is_name, Message, Home, box}
use teammate_mcp.Lease.{available_to_hook, lease_active, hook_delivery_lock, alive}
use teammate_mcp.Codex
use teammate_mcp.Codex.{Thread, Answer, answered}
use teammate_mcp.Worker.{Attempt, read_delivery, write_state, is_true}
use teammate_mcp.Worker.Scan.{connection, scan_mailbox, scan_mailbox_backs_off}
use teammate_mcp.StopHook.{records_of, decide, available_files, drain_unlocked, drain}
use teammate_mcp.StopHook.Drain.{drained}
use teammate_mcp.Settings.{
  RetryRefusal, refused, requeued, is_retryable, retry_delivery, takes_input, configured,
  configure_mailbox_delivery,
}
use teammate_mcp.Settings.Owner.{retry_delivery_effect, configure_mailbox_delivery_effect}
use teammate_mcp.Spawned.{Ledger, record_spawn}
use teammate_mcp.Watch.{
  Files, healthy, wake_text_changed, pid_alive, watchdog_health, started, ensure_watchdog_running,
}
use teammate_mcp.Watch.Restart.{ensure_watchdog_running_effect}
use teammate_mcp.PromptHook.{Limits}
use teammate_mcp.PromptHook.Attach.{submitted}
use teammate_mcp.Tests.Data.{mail_rec, mail_label, registry, job, mail_box, home, probe}

-- The hook blocks the stop, and the message is handed over.
hands_over : is_some (drained probe 3000 mail_label false (λ h. h) home true).1 ≡ true
unfolding drain drain_unlocked decide available_files hook_delivery_lock get put text_eq nat_eq
    records_of keys available_to_hook lease_active
hands_over = refl

abbrev failed_home : Home
failed_home = record home {
  boxes = (mail_label, record mail_box { delivery = (job, only failed) ∷ [] }) ∷ [];
}

-- A failed delivery is queued again for its receiver.
requeues : (retry_delivery failed_home mail_label [] job true).0 ≡ requeued true
unfolding retry_delivery read_delivery is_name get text_eq nat_eq option_eq
requeues = refl

retry_delivery_effect_example :
    let a = retry_delivery failed_home mail_label [] job true in
    ((e : RetryRefusal) → a.0 ≡ refused e → a.1 ≡ failed_home)
    × ((automatic : Bool)
        → a.0 ≡ requeued automatic
        → (a.1 ≡ write_state failed_home mail_label job (only queued))
          × (is_retryable (read_delivery failed_home mail_label job) ≡ true)
          × ((m : Message) × (endpoint : Rec) × (get (box failed_home mail_label).inbox job
                ≡ some m)
              × (get registry mail_label ≡ some endpoint)
              × (m.recipient_thread_id ≡ endpoint.thread_id)
              × (automatic ≡ is_true endpoint.auto_delivery)))
retry_delivery_effect_example = retry_delivery_effect failed_home mail_label [] job true

abbrev known_thread : Answer Thread
known_thread =
    answered (record { id = some (str "t1"); accepts_input = true; status = Codex.idle_thread })

abbrev settings : Bool × Registry
settings =
    configure_mailbox_delivery registry (str "t1") mail_label (some idle) true known_thread none
      (str "/s") (λ d. d)

configures : settings.0 ≡ true
unfolding configure_mailbox_delivery rec_eq get text_eq nat_eq option_eq
configures = refl

configure_mailbox_delivery_effect_example :
    (settings.0 ≡ false → (settings.1 ≡ registry) ⊎ (settings.1 ≡ registry))
    × (settings.0 ≡ true
        → (r : Rec) × (p : Policy) × (get registry mail_label ≡ some r)
          × (r.thread_id ≡ some (str "t1"))
          × (get registry mail_label ≡ some r)
          × (true ≡ true → takes_input known_thread (str "t1") ≡ true)
          × (settings.1 ≡ put registry mail_label (configured r p true none (str "/s")))
          × (IsConsistent registry → IsConsistent settings.1))
configure_mailbox_delivery_effect_example =
    configure_mailbox_delivery_effect registry (str "t1") mail_label (some idle) true known_thread
      none (str "/s") (λ d. d)

abbrev attempt : Attempt
attempt = record {
  lock_free = true;
  receipt_free = true;
  now = 3000;
  later = 3500;
  meanwhile = λ h. h;
  afterwards = λ h. h;
  peer = record { thread_read = Codex.broken; turns_list = Codex.broken; dispatch = Codex.broken };
}

scan_mailbox_backs_off_example :
    let h' = scan_mailbox [] mail_label mail_rec false (λ j. attempt) 3000 3100 home in
    (h' ≡ home)
    ⊎ ((w : Work) × (h' ≡ write_state home mail_label connection w)
        × ((box h' mail_label).inbox ≡ (box home mail_label).inbox)
        × (w.state ≡ retry)
        × (5100 ≤ w.retry_at)
        × (w.retry_at ≤ 63100))
scan_mailbox_backs_off_example =
    scan_mailbox_backs_off [] mail_label mail_rec (λ j. attempt) 3000 3100 home

abbrev ledger : Ledger
ledger = record_spawn [] (str "ab-12") (str "demo")

-- A running watchdog of another version.
abbrev outdated : Files
outdated = record { pid = 7; heartbeat = some (record { ts = 2000; wake_text = str "old" }) }

restarts :
    ensure_watchdog_running probe (str "new") 3000 3100 60000 true outdated outdated
    ≡ started (some 7)
unfolding ensure_watchdog_running watchdog_health pid_alive text_eq nat_eq
restarts = refl

ensure_watchdog_running_effect_example :
    (true ≡ true)
    × (watchdog_health probe (str "new") 3000 60000 outdated ≢ healthy)
    × (watchdog_health probe (str "new") 3100 60000 outdated ≢ healthy)
    × ((pid : ℕ)
        → some 7 ≡ some pid
        → (pid ≡ 7)
          × (probe pid ≡ alive)
          × (watchdog_health probe (str "new") 3100 60000 outdated ≡ wake_text_changed))
ensure_watchdog_running_effect_example =
    ensure_watchdog_running_effect probe (str "new") 3000 3100 60000 true outdated outdated (some 7)
      restarts

abbrev limits : Limits
limits = record { paused = false; max_attach = some 2; max_body_bytes = none }

abbrev prompted : Home × Option Text
prompted = submitted probe 3000 (str "/m") mail_label limits (λ h. h) home true
