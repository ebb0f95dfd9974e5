-- ===== src/Ask.antt =====
-- `_ask_async` of src/teammate_mcp/server.py with the keyboard transport off, which is the
-- default: a message goes to a pane-free Codex mailbox or to the native queue of a Claude
-- channel. The clock, the random part of the id, the caller's label and the file system's answer
-- are fields of the call, and so is what other processes do between the look-up of the recipient
-- and the registry lock (`meanwhile`). Times are milliseconds.
pub mod Queued
use teammate_mcp.Base.{
  ltb, if◌then◌else◌, Eq, ◌==◌, option_eq, nat_eq, text_eq, any, ℕ, ◌+◌, ◌-◌, ◌/◌, ◌<◌, Bool, true,
  false, not, ◌&&◌, ◌||◌, Option, none, some, [], ◌∷◌, arith,
}
use teammate_mcp.Base.Text.{Text, str, between}
use teammate_mcp.Base.Dict.{get}
use teammate_mcp.Registry.{
  Transport, mailbox, claude_channel, ChannelState, ready, Channel, Rec, rec_eq, nonempty,
  is_mailbox,
}
use teammate_mcp.Mailbox.{
  Kind, Mode, failed, Message, bare, Home, box, set_box, write_history, write_inbox,
}
use teammate_mcp.Mailbox
use teammate_mcp.Queue.{Queue, Job, enqueue, complete, fail}
use teammate_mcp.Lease.{Probe, alive, denied, missing}

pub record Server : Type 0 where
  pub home : Home
  pub queue : Queue

-- How far the inbox write gets: to its end, up to the envelope in the history, or nowhere.
pub data Writes : Type 0 where
  all_files only_history no_file : Writes

abbrev pub is_written : Writes → Bool
is_written all_files = true
is_written _ = false

pub record Call : Type 0 where
  pub caller : Text
  pub now : ℕ
  pub hex : Text
  pub timeout : ℕ
  pub meanwhile : Home → Home
  pub writes : Writes
  pub probe : ℕ → Probe

pub data Refusal : Type 0 where
  no_caller no_target registration_changed write_failed : Refusal

-- The texts that begin with "ERROR:" are `refused`.
pub data Reply : Type 0 where
  refused : Refusal → Reply
  queued_mailbox : Text → Text → Reply
  queued_channel : Text → Text → Bool → Reply

abbrev pub is_refused : Reply → Bool
is_refused (refused r) = true
is_refused _ = false

-- `channel_ready(record)` of claude_channel.py; any `OSError` of the probe is no.
abbrev pub answers : Probe → Bool
answers alive = true
answers denied = false
answers missing = false

abbrev is_ready : ChannelState → Bool
is_ready ready = true
is_ready _ = false

abbrev live_channel : Option Channel → (ℕ → Probe) → ℕ → Bool
live_channel none probe now = false
live_channel (some c) probe now =
    if not (is_ready c.state) || ltb (c.last_seen + 10000) now then false else answers (probe c.pid)

unfoldable pub channel_ready : Rec → (ℕ → Probe) → ℕ → Bool
channel_ready r probe now = live_channel r.channel probe now

-- `x or d`
abbrev pub or_text : Text → Text → Text
or_text [] d = d
or_text (c ∷ s) d = c ∷ s

abbrev pub or_none : Text → Option Text
or_none [] = none
or_none (c ∷ s) = some (c ∷ s)

abbrev pub kind_of : Text → Kind
kind_of [] = Kind.question
kind_of (c ∷ s) = Kind.reply

-- What every queued record of an ask holds.
abbrev pub envelope : Job → Text → Text → Text → Text → ℕ → Message
envelope job target question in_reply_to conversation_id now = record (bare job.id) {
  from_ = some job.from_agent;
  to = target;
  body = question;
  created_at = some now;
  conversation_id = some (or_text conversation_id job.id);
  in_reply_to = or_none in_reply_to;
  message_kind = some (kind_of in_reply_to);
}

-- The recipient's identity, which must not have changed.
abbrev pub transport_code : Option Transport → ℕ
transport_code none = 0
transport_code (some mailbox) = 1
transport_code (some claude_channel) = 2

abbrev pub same_session : Rec → Rec → Bool
same_session a b =
    a.session_id == b.session_id
    && a.thread_id == b.thread_id
    && a.claude_owner == b.claude_owner
    && transport_code a.transport == transport_code b.transport

abbrev pub still_same : Option Rec → Rec → Bool
still_same none endpoint = false
still_same (some current) endpoint = same_session current endpoint

-- What a write that failed leaves.
unfoldable pub unfinished : Writes → Home → Text → Message → Home
unfolding write_history
unfinished only_history h target m = set_box h target (write_history (box h target) m)
unfinished _ h target m = h

-- An attempt to queue: `fits` is the check under the lock.
abbrev pub queue_message :
    Server → Call → Job → Queue → Text → Message → Bool → Reply → Reply × Server
queue_message s c job queue target m fits done =
    let home = c.meanwhile s.home in
    if not fits
    then (
      refused registration_changed,
      record {
        home = home;
        queue = fail queue job.id (str "recipient registration changed") c.now;
      },
    )
    else if not (is_written c.writes)
    then (
      refused write_failed,
      record {
        home = unfinished c.writes home target m;
        queue = fail queue job.id (str "write failed") c.now;
      },
    )
    else (done, record { home = write_inbox home target m; queue = complete queue job.id [] c.now })

abbrev pub recipient : Home → Text → Option Rec
recipient h [] = none
recipient h (c ∷ target) = get h.registry (c ∷ target)

unfoldable pub to_mailbox : Server → Call → Job → Queue → Text → Message → Rec → Reply × Server
to_mailbox s c job queue target m endpoint =
    queue_message s c job queue target (record m { recipient_thread_id = endpoint.thread_id })
      (get (c.meanwhile s.home).registry target == some endpoint) (queued_mailbox job.id target)

unfoldable pub to_channel : Server → Call → Job → Queue → Text → Message → Rec → Reply × Server
to_channel s c job queue target m endpoint =
    queue_message s c job queue target
      (record m {
        delivery_mode = some Mode.claude_channel;
        recipient_session_id = some endpoint.session_id;
        recipient_claude_owner = endpoint.claude_owner;
      })
      (still_same (get (c.meanwhile s.home).registry target) endpoint)
      (queued_channel job.id target (channel_ready endpoint c.probe c.now))

abbrev pub route : Server → Call → Job → Queue → Text → Message → Option Rec → Reply × Server
route s c job queue target m none = (
  refused no_target,
  record {
    home = s.home;
    queue = fail queue job.id (str "registered native target required") c.now;
  },
)
route s c job queue target m (some endpoint) =
    if is_mailbox endpoint.transport
    then to_mailbox s c job queue target m endpoint
    else to_channel s c job queue target m endpoint

-- `addressee` is `target or fallback_agent or "<unspecified>"`.
unfoldable pub ask : Server → Call → Text → Text → Text → Text → Text → Reply × Server
unfolding to_mailbox to_channel
ask s c addressee question target in_reply_to conversation_id =
    if not (nonempty c.caller)
    then (refused no_caller, s)
    else let (job, queue) = enqueue s.queue c.now c.hex c.caller addressee question 1 c.timeout in
      route s c job queue target (envelope job target question in_reply_to conversation_id c.now)
        (recipient s.home target)
