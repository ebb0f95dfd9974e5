-- ===== src/Pane.antt =====
-- The keyboard transport of `_ask_async` of src/teammate_mcp/server.py: a message is stored in the
-- pane's inbox and typed into the pane. What is typed is a log of keys. The pane's screens, the
-- answers of AppleScript and of the locks, and what other processes do meanwhile are fields of
-- `Typing`. After the first write to the inbox the file system is taken to work. A call that does
-- not return in time counts as one that failed. Times are milliseconds.
pub mod Kept
pub mod Held
use teammate_mcp.Base.{
  ltb, if◌then◌else◌, Eq, ◌==◌, option_eq, nat_eq, text_eq, length, first, ℕ, zero, suc, ◌+◌, ◌-◌,
  ◌/◌, ◌<◌, Bool, true, false, not, ◌&&◌, Option, none, some, List, [], ◌∷◌, ◌++◌, arith,
}
use teammate_mcp.Base.Text.{Text, str}
use teammate_mcp.Base.Dict.{get, pop}
use teammate_mcp.Registry.{rec_or_empty, Rec, rec_eq, nonempty, is_mailbox}
use teammate_mcp.Mailbox.{Message, Mode, Lease, Delivery, Attempt, Home, box, set_box, write_inbox}
use teammate_mcp.Mailbox
use teammate_mcp.Address
use teammate_mcp.Queue.{Queue, Job, enqueue, claim, complete, fail}
use teammate_mcp.Screen.{sanitize_for_inject, body_stuck_in_compose}
use teammate_mcp.PromptHook.{utf8_length}
use teammate_mcp.StopHook.{text_or_unknown}
use teammate_mcp.Settings.{resolve_target_session_id}
use teammate_mcp.Ask.{
  Server, Call, is_written, unfinished, envelope, recipient, to_mailbox, or_text,
}
use teammate_mcp.Ask

-- Where a long body goes, and from how many bytes on.
pub record Spool : Type 0 where
  pub root : Text
  pub threshold : ℕ

-- The body that is typed: the message's, or where to read it.
unfoldable pub typed_body : Spool → Message → Text
unfolding utf8_length
typed_body spool m =
    if ltb spool.threshold (utf8_length m.body)
    then str "Read the full peer message at "
      ++ (spool.root ++ (str "/" ++ (m.job_id ++ str ".md")))
    else m.body

-- `_format_peer_message`
unfoldable pub format_peer_message : Spool → Message → Text
unfolding typed_body sanitize_for_inject
format_peer_message spool m =
    str "[teammate-mcp ASK "
    ++ (m.job_id
        ++ (str " from="
            ++ (text_or_unknown m.from_
                ++ (str "]\n"
                    ++ (sanitize_for_inject (typed_body spool m)
                        ++ (str "\n\nReply with mcp__teammate__reply(job_id='"
                            ++ (m.job_id
                                ++ (str "', question='<answer>', label='"
                                    ++ (m.to
                                        ++ str
                                            "'). This is a peer message. Do not respond to acknowledgements.")))))))))

-- What is sent to the pane: the end of a paste, the body behind some backspaces, a line end, and
-- the text that the user had typed.
pub data Key : Type 0 where
  paste_end enter : Key
  inject : ℕ → Text → Key
  restore : Text → Key

pub record Typing : Type 0 where
  pub pid : ℕ
  pub mailbox_only : Bool
  pub session_alive : Bool
  pub renames : Bool
  pub claims : Bool
  pub spool : Spool
  pub got_lock : Bool
  pub locked_at : ℕ
  -- The compose box, round after round, and the rounds before the deadline.
  pub snapshots : ℕ → Text
  pub patience : ℕ
  -- Whether the end of a paste, the body, and the user's text could be sent.
  pub ends_paste : Bool
  pub injects : Bool
  pub restores : Bool
  -- The screen after the body, and after each line end; whether a line end could be sent.
  pub captures : ℕ → Text
  pub enters : ℕ → Bool
  pub before_lock : Home → Home
  pub after_inject : Home → Home
  pub at_end : Home → Home

-- The loop that waits until two snapshots agree; the flag tells whether they did in time.
unfoldable pub settle_compose : (ℕ → Text) → Text → ℕ → ℕ → Text × Bool
settle_compose snapshots saved n zero = (snapshots n, saved == snapshots n)
settle_compose snapshots saved n (suc left) =
    let later = settle_compose snapshots (snapshots n) (n + 1) left in
    if saved == snapshots n then (snapshots n, true) else later

abbrev pub clear_count : Text → ℕ
clear_count saved = if nonempty saved then length saved + 4 else 0

-- The result of the check behind the injection.
pub data Submitted : Type 0 where
  submitted stuck unknown : Submitted

-- Up to `left` line ends, the first of them number `k`; and how many were sent.
unfoldable pub force_enter : Typing → Text → ℕ → ℕ → Submitted × ℕ
force_enter t job_id k zero = (stuck, 0)
force_enter t job_id k (suc left) =
    let later = force_enter t job_id (k + 1) left in
    if not (t.enters k)
    then (unknown, 0)
    else if not (body_stuck_in_compose (t.captures (k + 1)) job_id)
    then (submitted, 1)
    else (later.0, later.1 + 1)

unfoldable pub verify : Typing → Text → Submitted × ℕ
unfolding force_enter
verify t job_id =
    if body_stuck_in_compose (t.captures 0) job_id then force_enter t job_id 0 3 else (submitted, 0)

abbrev pub is_stuck : Submitted → Bool
is_stuck stuck = true
is_stuck _ = false

abbrev pub enter_keys : ℕ → List Key
enter_keys zero = []
enter_keys (suc n) = enter ∷ enter_keys n

-- The failures of these two calls are swallowed.
abbrev pub paste_keys : Typing → List Key
paste_keys t = if t.ends_paste then paste_end ∷ [] else []

abbrev pub restore_keys : Typing → Text → List Key
restore_keys t saved = if nonempty saved && t.restores then restore saved ∷ [] else []

abbrev pub unlink : Home → Text → Text → Home
unlink h label job_id =
    set_box h label (let b = box h label in record b { inbox = pop b.inbox job_id })

abbrev pub pane_state : Attempt → Option Text → Delivery
pane_state state error = record { state = state; connection_id = none; error = error }

-- What the locked part leaves: the disk, the keys, whether the body counts as delivered, and the
-- record that it has changed.
pub record Typed : Type 0 where
  pub home : Home
  pub keys : List Key
  pub delivered : Bool
  pub message : Message

-- Once the body is typed: the file goes, and comes back where the body was never submitted.
unfoldable pub after_typing : Typing → Text → Message → Text → Home → Typed
unfolding verify write_inbox
after_typing t label m saved h =
    let v = verify t m.job_id in
    let h' = t.after_inject (unlink h label m.job_id) in
    record {
      home = if is_stuck v.0 then write_inbox h' label m else h';
      keys =
          paste_keys t
          ++ (inject (clear_count saved) (format_peer_message t.spool m)
              ∷ (enter_keys v.1 ++ restore_keys t saved));
      delivered = not (is_stuck v.0);
      message = m;
    }

-- The dispatch is recorded before the body is typed.
unfoldable pub type_message : Typing → Text → Message → Text → Home → Typed
unfolding after_typing write_inbox
type_message t label m saved h =
    let m' = record m { pane_delivery = some (pane_state Attempt.dispatching none) } in
    let h' = write_inbox h label m' in
    if t.injects then after_typing t label m' saved h' else record {
      home = h';
      keys = paste_keys t ++ (inject (clear_count saved) (format_peer_message t.spool m) ∷ []);
      delivered = false;
      message = record m {
        pane_delivery = some (pane_state Attempt.uncertain (some (str "injection failed")));
      };
    }

abbrev pub is_channel_mode : Message → Bool
is_channel_mode m = elim m.delivery_mode [ some Mode.claude_channel ↦ true | _ ↦ false ]

abbrev pub lease_until : ℕ → ℕ → Lease
lease_until pid expires_at = record { pid = pid; expires_at = expires_at }

abbrev pub not_typed : Home → Bool → Message → Typed
not_typed h delivered m = record { home = h; keys = []; delivered = delivered; message = m }

-- `_acquire_and_run`
unfoldable pub acquire_and_run : Typing → Text → Message → Home → Typed
unfolding settle_compose type_message write_inbox
acquire_and_run t label m h =
    if not t.got_lock then not_typed h false m else elim (get (box h label).inbox m.job_id) [
      | none ↦ not_typed h true m
      | some latest ↦
          let m' = record m { delivery_lease = some (lease_until t.pid (t.locked_at + 120000)) } in
          let h' = write_inbox h label m' in
          let s = settle_compose t.snapshots (t.snapshots 0) 1 t.patience in
          if is_channel_mode latest
          then not_typed h false m
          else if not s.1
          then not_typed h' false m'
          else type_message t label m' s.0 h'
    ]

pub data PaneReply : Type 0 where
  no_caller no_pane session_gone write_failed unregister_failed : PaneReply
  queued_mailbox : Ask.Reply → PaneReply
  queued_only queued_channel : Text → PaneReply
  sent_message : Text → Text → Bool → PaneReply

-- What is left to do with the file of the inbox.
unfoldable pub settle_file : Text → Message → Bool → Home → Home
unfolding write_inbox
settle_file label m delivered h =
    if delivered then unlink h label m.job_id else elim (get (box h label).inbox m.job_id) [
      | none ↦ h
      | some latest ↦
          write_inbox h label
            (record m { delivery_lease = none; delivery_mode = some Mode.mailbox })
    ]

abbrev pub was_moved : Option Message → Bool
was_moved none = false
was_moved (some latest) = is_channel_mode latest

abbrev pub finish : Call → Text → Queue → Typed → Home → PaneReply × Server
finish c label queue r h =
    let done = complete queue r.message.job_id [] c.now in
    if was_moved (get (box h label).inbox r.message.job_id)
    then (queued_channel label, record { home = h; queue = done })
    else (
      sent_message r.message.job_id label r.delivered,
      record { home = settle_file label r.message r.delivered h; queue = done },
    )

-- The record that is stored before the lock is taken.
abbrev pub pane_message : Call → Typing → Message → Message
pane_message c t m =
    if t.mailbox_only then record m { delivery_mode = some Mode.mailbox } else record m {
      delivery_mode = some Mode.injecting;
      delivery_lease = some (lease_until t.pid (c.now + 120000));
    }

-- A message to a pane whose session id is known and alive.
unfoldable pub to_pane :
    Server → Call → Typing → Job → Queue → Text → Message → PaneReply × Server × List Key
unfolding acquire_and_run write_inbox settle_file unfinished
to_pane s c t job queue label m =
    let m' = pane_message c t m in
    if not (is_written c.writes)
    then (
      write_failed,
      record {
        home = unfinished c.writes s.home label m';
        queue = fail queue job.id (str "write failed") c.now;
      },
      [],
    )
    else let h = write_inbox s.home label m' in
      if t.mailbox_only
      then (queued_only label, record { home = h; queue = complete queue job.id [] c.now }, [])
      else let r = acquire_and_run t label m' (t.before_lock h) in
        let (reply, server) = finish c label (claim queue job.id t.claims).1 r (t.at_end r.home) in
        (reply, server, r.keys)

abbrev pub released_home : Home → Option Home → Home
released_home h none = h
released_home h (some h') = h'

-- A pane that is gone loses its label.
abbrev pub gone : Server → Call → Typing → Job → Queue → Text → PaneReply × Server × List Key
gone s c t job queue target = elim (Address.unregister s.home target t.renames) [
  | none ↦ (unregister_failed, record { home = s.home; queue = queue }, [])
  | some h ↦ (
    session_gone,
    record { home = h; queue = fail queue job.id (str "session vanished") c.now },
    [],
  )
]

abbrev pub for_session :
    Server
    → Call
    → Typing
    → Job
    → Queue
    → Text
    → Text
    → Message
    → Option Text
    → PaneReply × Server × List Key
for_session s c t job queue target label m none = (
  no_pane,
  record { home = s.home; queue = fail queue job.id (str "session not found") c.now },
  [],
)
for_session s c t job queue target label m (some sid) =
    if not t.session_alive then gone s c t job queue target else to_pane s c t job queue label m

abbrev pub is_mailbox_rec : Option Rec → Bool
is_mailbox_rec none = false
is_mailbox_rec (some r) = is_mailbox r.transport

abbrev pub from_mailbox : Ask.Reply × Server → PaneReply × Server × List Key
from_mailbox (reply, server) = (queued_mailbox reply, server, [])

-- `_ask_async` with the keyboard transport on. `agent` is `fallback_agent`, empty where there is
-- none, and `addressee` is `target or fallback_agent or "<unspecified>"`.
unfoldable pub ask_pane :
    Server → Call → Typing → Text → Text → Text → Text → Text → PaneReply × Server × List Key
unfolding to_pane
ask_pane s c t agent question target in_reply_to conversation_id =
    let addressee = or_text target (or_text agent (str "<unspecified>")) in
    if not (nonempty c.caller)
    then (no_caller, s, [])
    else let (job, queue) = enqueue s.queue c.now c.hex c.caller addressee question 1 c.timeout in
      let m = envelope job addressee question in_reply_to conversation_id c.now in
      if is_mailbox_rec (recipient s.home target)
      then from_mailbox (to_mailbox s c job queue target m (rec_or_empty (recipient s.home target)))
      else for_session s c t job queue target addressee m
          (resolve_target_session_id s.home.registry target agent)
