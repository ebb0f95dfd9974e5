-- ===== src/Mailbox.antt =====
-- The mailbox directories under mailbox/<label>/ of src/teammate_mcp/server.py: the job records,
-- and the functions that write, archive and process them. A directory of JSON files is a dict
-- from the file's stem to its content; files that do not parse are not modelled. A lock file
-- makes each operation one step.
pub mod Receipts
use teammate_mcp.Base.{
  if◌then◌else◌, Eq, ◌==◌, option_eq, nat_eq, text_eq, all, first, ℕ, ◌-◌, ◌*◌, ◌/◌, ◌<◌, Bool,
  true, false, not, ◌&&◌, ◌||◌, Option, none, some, List, [], ◌∷◌, arith,
}
use teammate_mcp.Base.Text.{Text, between}
use teammate_mcp.Base.Dict.{Dict, get, put, pop}
use teammate_mcp.Response.{Response}
use teammate_mcp.Work.{Work}
use teammate_mcp.Registry.{nonempty, Registry}

pub data Kind : Type 0 where
  question reply : Kind

-- "mailbox", "injecting", "claude-channel"
pub data Mode : Type 0 where
  mailbox injecting claude_channel : Mode

pub record Lease : Type 0 where
  pub pid : ℕ
  pub expires_at : ℕ

pub data Attempt : Type 0 where
  dispatching submitted sent uncertain failed : Attempt

-- The objects under "pane_delivery" and "channel_delivery".
pub record Delivery : Type 0 where
  pub state : Attempt
  pub connection_id : Option Text
  pub error : Option Text

pub data Status : Type 0 where
  completed delivered drained : Status

pub record Terminal : Type 0 where
  pub status : Status
  pub reply : Text
  pub delivery_result : Option Text

-- A job record. `created_at` is the time of its ISO text. A receipt of a message that is gone has
-- no sender and an empty body.
pub record Message : Type 0 where
  pub job_id : Text
  pub from_ : Option Text
  pub to : Text
  pub body : Text
  pub created_at : Option ℕ
  pub conversation_id : Option Text
  pub in_reply_to : Option Text
  pub message_kind : Option Kind
  pub delivery_mode : Option Mode
  pub delivery_lease : Option Lease
  pub pane_delivery : Option Delivery
  pub channel_delivery : Option Delivery
  pub recipient_thread_id : Option Text
  pub recipient_session_id : Option Text
  pub recipient_claude_owner : Option Text
  pub terminal : Option Terminal

-- `{"job_id": job_id}`
abbrev pub bare : Text → Message
bare job_id = record {
  job_id = job_id;
  from_ = none;
  to = [];
  body = [];
  created_at = none;
  conversation_id = none;
  in_reply_to = none;
  message_kind = none;
  delivery_mode = none;
  delivery_lease = none;
  pane_delivery = none;
  channel_delivery = none;
  recipient_thread_id = none;
  recipient_session_id = none;
  recipient_claude_owner = none;
  terminal = none;
}

pub record Box : Type 0 where
  pub inbox : Dict Message
  pub history : Dict Message
  pub processed : Dict Message
  pub responses : Dict Response
  pub delivery : Dict Work

abbrev pub empty_box : Box
empty_box = record { inbox = []; history = []; processed = []; responses = []; delivery = [] }

-- What is on disk: the registry, the mailboxes by label, and those moved aside.
pub record Home : Type 0 where
  pub registry : Registry
  pub boxes : Dict Box
  pub archived : List (Text × Box)

-- `_mailbox_dir` makes a missing directory.
abbrev pub box_or_empty : Option Box → Box
box_or_empty none = empty_box
box_or_empty (some b) = b

abbrev pub box : Home → Text → Box
box h label = box_or_empty (get h.boxes label)

abbrev pub set_box : Home → Text → Box → Home
set_box h label b = record h { boxes = put h.boxes label b }

-- `re.fullmatch(r"[A-Za-z0-9][A-Za-z0-9_-]*", part)`
abbrev pub is_alnum : ℕ → Bool
is_alnum c = between b'A' b'Z' c || between b'a' b'z' c || between b'0' b'9' c

abbrev pub is_word : ℕ → Bool
is_word c = is_alnum c || c == b'_' || c == b'-'

unfoldable pub is_name : Text → Bool
unfolding nat_eq
is_name [] = false
is_name (c ∷ s) = is_alnum c && all is_word s

-- The first of the two replacements in `_write_inbox`.
unfoldable pub write_history : Box → Message → Box
write_history b m = record b { history = put b.history m.job_id m }

unfoldable pub write_pending : Box → Message → Box
write_pending b m = record b { inbox = put b.inbox m.job_id m }

unfoldable pub write_inbox : Home → Text → Message → Home
unfolding write_history write_pending
write_inbox h target m = set_box h target (write_pending (write_history (box h target) m) m)

-- The record that a receipt extends: the inbox's, else the processed one, else a bare one.
abbrev pub source_record : Text → Option Message → Option Message → Message
source_record job_id (some m) old = m
source_record job_id none (some m) = m
source_record job_id none none = bare job_id

abbrev pub is_completed : Status → Bool
is_completed completed = true
is_completed _ = false

-- A completed receipt gives way only to another completed one that carries a reply.
unfoldable pub merge_terminal : Option Terminal → Terminal → Terminal
merge_terminal none new = new
merge_terminal (some previous) new =
    if is_completed previous.status && (not (is_completed new.status) || not (nonempty new.reply))
    then previous
    else new

unfoldable pub receipt : Message → Terminal → Message
unfolding merge_terminal
receipt m new = record m { terminal = some (merge_terminal m.terminal new) }

unfoldable pub save_processed_receipt : Box → Text → Terminal → Box
unfolding receipt
save_processed_receipt b job_id new =
    let m = source_record job_id (get b.inbox job_id) (get b.processed job_id) in
    record b { processed = put b.processed job_id (receipt m new); inbox = pop b.inbox job_id }

-- `none` is `ValueError("invalid mailbox label or job_id")`.
unfoldable pub move_to_processed : Home → Text → Text → Terminal → Option Home
unfolding is_name save_processed_receipt
move_to_processed h target job_id new =
    if is_name target && is_name job_id
    then some (set_box h target (save_processed_receipt (box h target) job_id new))
    else none

abbrev pub is_empty_box : Box → Bool
is_empty_box b = not (
    nonempty b.inbox
    || nonempty b.processed
    || nonempty b.history
    || nonempty b.responses
    || nonempty b.delivery)

-- `renames` tells whether the file system moves the directory aside.
unfoldable pub archive_label_mailbox : Home → Text → Bool → Home
archive_label_mailbox h label renames = elim (get h.boxes label) [
  | none ↦ h
  | some b ↦
      if is_empty_box b
      then record h { boxes = pop h.boxes label }
      else if renames
      then record h { boxes = pop h.boxes label; archived = (label, b) ∷ h.archived }
      else h
]
