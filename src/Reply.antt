-- ===== src/Reply.antt =====
-- The tools `reply` and `mark_processed` of src/teammate_mcp/server.py. A call may be cut off
-- (the process is killed) before the send, after it, or before the receipt: `crash` says where.
-- The per-job reply lock makes a call one step, but for what the send itself awaits.
pub mod Once
use teammate_mcp.Base.{
  if◌then◌else◌, Eq, ◌==◌, option_eq, nat_eq, text_eq, first, ◌+◌, ◌-◌, ◌/◌, Bool, true, false, not,
  ◌&&◌, ◌||◌, Option, none, some, [], ◌++◌, arith,
}
use teammate_mcp.Base.Text.{Text, str, strip}
use teammate_mcp.Base.Dict.{get, put}
use teammate_mcp.Registry.{nonempty}
use teammate_mcp.Response.{Response, dispatching, failed, sent}
use teammate_mcp.Mailbox.{Message, completed, Box, Home, box, set_box, is_name, move_to_processed}
use teammate_mcp.Ask
use teammate_mcp.Ask.{Server, Call, Refusal, is_refused, ask}

pub data Crash : Type 0 where
  runs before_send after_send before_receipt : Crash

pub data Answer : Type 0 where
  bad_names empty_reply in_progress uncertain no_sender cut_off : Answer
  already_replied : Text → Answer
  refused : Refusal → Answer
  delivered : Text → Answer

unfoldable pub set_response : Server → Text → Text → Response → Server
set_response s label job_id r = record s {
  home =
      set_box s.home label
        (let b = box s.home label in record b { responses = put b.responses job_id r });
}

abbrev pub response : Server → Text → Text → Option Response
response s label job_id = get (box s.home label).responses job_id

-- The receipt of a reply; `move_to_processed` raises on bad names.
abbrev pub set_home : Server → Option Home → Server
set_home s none = s
set_home s (some h) = record s { home = h }

unfoldable pub receipt : Server → Text → Text → Text → Text → Server
receipt s label job_id reply result = set_home s (
    move_to_processed s.home label job_id
      (record { status = completed; reply = reply; delivery_result = some result }))

abbrev pub has_sender : Message → Bool
has_sender m = elim m.from_ [ none ↦ false | some f ↦ nonempty f ]

-- The loop over inbox, processed and history: the first record with a sender, else the last one.
abbrev pub better : Option Message → Option Message → Option Message
better first none = first
better none (some m) = some m
better (some f) (some m) = if has_sender f then some f else some m

abbrev pub original : Box → Text → Option Message
original b job_id =
    better (better (get b.inbox job_id) (get b.processed job_id)) (get b.history job_id)

abbrev pub sender_of : Option Message → Option Text
sender_of none = none
sender_of (some m) = elim m.from_ [
  | none ↦ none
  | some f ↦ if not (nonempty f) || f == str "unknown" then none else some f
]

abbrev pub conversation_of : Option Message → Text → Text
conversation_of none job_id = job_id
conversation_of (some m) job_id = elim m.conversation_id [
  | none ↦ job_id
  | some c ↦ if nonempty c then c else job_id
]

-- The text of an accepted ask.
unfoldable pub result_text : Ask.Reply → Text
result_text (Ask.Reply.refused r) = str "ERROR:"
result_text (Ask.Reply.queued_mailbox id target) =
    str "queued mailbox message: job_id=" ++ (id ++ (str " to " ++ target))
result_text (Ask.Reply.queued_channel id target ready) =
    str "queued channel message: job_id="
    ++ (id
        ++ (str " to "
            ++ (target ++ (if ready then str " (ready)" else str " (awaiting-channel-handshake)"))))

-- What a call gives: its answer, the server after it, and whether an ask went through.
pub record Called : Type 0 where
  pub answer : Answer
  pub server : Server
  pub asked : Bool

abbrev pub quiet : Answer → Server → Called
quiet a s = record { answer = a; server = s; asked = false }

-- After the ask: record the result, then write the receipt.
abbrev pub after_ask : Crash → Text → Text → Text → Ask.Reply × Server → Called
after_ask after_send label job_id reply (r, s) = record {
  answer = cut_off;
  server = s;
  asked = not (is_refused r);
}
after_ask crash label job_id reply (Ask.Reply.refused r, s) = record {
  answer = refused r;
  server = set_response s label job_id (failed (result_text (Ask.Reply.refused r)));
  asked = false;
}
after_ask before_receipt label job_id reply (r, s) = record {
  answer = cut_off;
  server = set_response s label job_id (sent reply (result_text r));
  asked = true;
}
after_ask crash label job_id reply (r, s) = record {
  answer = delivered (result_text r);
  server =
      receipt (set_response s label job_id (sent reply (result_text r))) label job_id reply
        (result_text r);
  asked = true;
}

unfoldable pub send_reply : Server → Call → Crash → Text → Text → Text → Text → Text → Called
send_reply s c before_send label job_id reply sender conversation =
    quiet cut_off (set_response s label job_id (dispatching reply))
send_reply s c crash label job_id reply sender conversation = after_ask crash label job_id reply (
    ask (set_response s label job_id (dispatching reply)) c sender reply sender job_id conversation)

abbrev pub by_state : Server → Call → Crash → Text → Text → Text → Option Response → Called
by_state s c crash label job_id reply (some (sent old result)) =
    quiet (already_replied result) (receipt s label job_id old result)
by_state s c crash label job_id reply (some (dispatching old)) = quiet uncertain s
by_state s c crash label job_id reply state =
    let m = original (box s.home label) job_id in
    elim (sender_of m) [
      | none ↦ quiet no_sender s
      | some sender ↦ send_reply s c crash label job_id reply sender (conversation_of m job_id)
    ]

-- `label` is the argument, or the caller's label where it is blank.
unfoldable pub reply_to : Server → Call → Crash → Bool → Text → Text → Text → Called
reply_to s c crash lock_free label job_id reply =
    if not (is_name label && is_name job_id)
    then quiet bad_names s
    else if not (nonempty (strip reply))
    then quiet empty_reply s
    else if not lock_free
    then quiet in_progress s
    else by_state s c crash label job_id reply (response s label job_id)

-- `mark_processed`; `none` is an error text.
unfoldable pub mark_processed : Home → Text → Text → Text → Text → Option Home
mark_processed h caller target job_id reply =
    let target' = if nonempty target then target else caller in
    if nonempty target'
    then move_to_processed h target' job_id
        (record { status = completed; reply = reply; delivery_result = none })
    else none
