-- ===== src/Lease.antt =====
-- The claim checks of src/teammate_mcp/pane_delivery.py, shared by senders, hooks and watchdog.
-- `os.kill(pid, 0)` is the parameter `probe`. Times are milliseconds; a
-- `created_at` that is no time is not in the model.
pub mod Exclusion
use teammate_mcp.Base.{
  leb, if◌then◌else◌, is_some, Eq, option_eq, nat_eq, text_eq, ℕ, ◌+◌, ◌-◌, ◌/◌, Bool, true, false,
  not, ◌&&◌, Option, none, some, [], arith,
}
use teammate_mcp.Base.Text.{Text}
use teammate_mcp.Base.Dict.{get}
use teammate_mcp.Mailbox.{
  Mode, mailbox, claude_channel, dispatching, submitted, uncertain, Delivery, Message, Home,
}

-- The answer of `os.kill(pid, 0)`.
pub data Probe : Type 0 where
  alive denied missing : Probe

abbrev pub is_running : Probe → Bool
is_running alive = true
is_running denied = true
is_running missing = false

-- State in ("dispatching", "submitted", "uncertain")
abbrev pub is_held : Option Delivery → Bool
is_held none = false
is_held (some d) = elim d.state [
  | dispatching ↦ true
  | submitted ↦ true
  | uncertain ↦ true
  | _ ↦ false
]

abbrev pub is_native : Option Mode → Bool
is_native (some claude_channel) = true
is_native _ = false

unfoldable pub lease_active : (ℕ → Probe) → Message → ℕ → Bool
lease_active probe m now = elim m.delivery_lease [
  | none ↦ false
  | some lease ↦
      if leb lease.expires_at now
      then false
      else if leb lease.pid 0
      then false
      else is_running (probe lease.pid)
]

-- Old senders write no mode and no lease: their message waits 15 seconds.
unfoldable pub past_grace : Message → ℕ → Bool
past_grace m now =
    if is_some m.delivery_mode
    then true
    else elim m.created_at [ none ↦ true | some created ↦ leb (created + 15000) now ]

unfoldable pub eligible_for_watch : (ℕ → Probe) → Message → ℕ → Bool
unfolding past_grace
eligible_for_watch probe m now =
    if is_native m.delivery_mode
    then false
    else if is_held m.pane_delivery
    then false
    else if lease_active probe m now
    then false
    else past_grace m now

unfoldable pub available_to_hook : (ℕ → Probe) → Message → ℕ → Bool
available_to_hook probe m now =
    if is_native m.delivery_mode
    then false
    else not (lease_active probe m now) && not (is_held m.pane_delivery)

-- `hook_delivery_lock`: the mailbox directory is there, and the send lock was free.
unfoldable pub hook_delivery_lock : Home → Text → Bool → Bool
hook_delivery_lock h label free = if is_some (get h.boxes label) then free else false
