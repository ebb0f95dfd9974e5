-- ===== src/Pane/Held.antt =====
-- src/teammate_mcp/server.py: the message of a body that was never submitted.
use teammate_mcp.Base.{option_eq, nat_eq, text_eq, ℕ, ◌≡◌, refl, true, false, none, some, arith}
use teammate_mcp.Base.Text.{Text}
use teammate_mcp.Base.Dict.{get}
use teammate_mcp.Mailbox.{Attempt, Message, Mode, Home, box, write_inbox}
use teammate_mcp.Mailbox.Receipts.{inbox-write_inbox_self}
use teammate_mcp.Lease.{lease_active, Probe, available_to_hook, eligible_for_watch}
use teammate_mcp.Queue.{Queue}
use teammate_mcp.Ask.{Call}
use teammate_mcp.Pane.{
  Typing, verify, is_stuck, unlink, pane_state, after_typing, type_message, is_channel_mode,
  settle_file, finish,
}

-- Where the body stays in the compose box after three line ends, the file is written again so that
-- a hook or the watchdog can take it; but it says that a dispatch is under way, and so both refuse
-- it, at any time.
pub stuck_is_held :
    (t : Typing) (label : Text) (c : Call) (queue : Queue) (m : Message) (saved : Text) (h : Home)
    (probe : ℕ → Probe) (now : ℕ)
    → t.injects ≡ true
    → is_stuck (verify t m.job_id).0 ≡ true
    → is_channel_mode m ≡ false
    → let r = type_message t label m saved h in
      let f = finish c label queue r r.home in
      (latest : Message) × (get (box f.1.home label).inbox m.job_id ≡ some latest)
      × (latest.body ≡ m.body)
      × (available_to_hook probe latest now ≡ false)
      × (eligible_for_watch probe latest now ≡ false)
unfolding type_message after_typing settle_file available_to_hook eligible_for_watch lease_active
stuck_is_held t label c queue m saved h probe now i s n =
    let back = record m { pane_delivery = some (pane_state Attempt.dispatching none) } in
    let before = t.after_inject (unlink (write_inbox h label back) label m.job_id) in
    let there = inbox-write_inbox_self before label back in
    let last = record back { delivery_lease = none; delivery_mode = some Mode.mailbox } in
    (
      last,
      ground (
        arith,
        i,
        s,
        n,
        there,
        inbox-write_inbox_self (write_inbox before label back) label last,
      ),
      refl,
      refl,
      refl,
    )
