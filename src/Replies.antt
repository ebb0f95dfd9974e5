-- ===== src/Replies.antt =====
-- src/teammate_mcp/cli.py: whose mail `drain` and `inbox` read, and `next-reply`. A file that is
-- not JSON is not in the model. What is printed is the result. Times are milliseconds.
pub mod Oldest
use teammate_mcp.Base.{
  leb, if◌then◌else◌, Eq, ◌==◌, contains, option_eq, nat_eq, text_eq, first, ℕ, ◌+◌, ◌-◌, ◌/◌, Bool,
  true, false, not, ◌&&◌, ◌||◌, Option, none, some, List, [], ◌∷◌, ◌++◌, arith,
}
use teammate_mcp.Base.Sorting.{first_of, sort_by}
use teammate_mcp.Base.Text.{Text, str, upper, strip, starts_with, ends_with}
use teammate_mcp.Base.Dict.{Dict, keep_items, find_item}
use teammate_mcp.Base.Order.{text_le}
use teammate_mcp.Registry.{nonempty, Registry, Rec}
use teammate_mcp.Mailbox.{Message, Box}
use teammate_mcp.Spawning.{after_colon}

-- The pane's id, in capitals, of `TERM_SESSION_ID`.
unfoldable pub sid_tail : Text → Text
unfolding after_colon
sid_tail tsid = elim (after_colon tsid) [ none ↦ upper tsid | some t ↦ upper t ]

-- The first label of the pane, where there is one.
abbrev pub is_pane_of : Text → Text → Rec → Bool
is_pane_of tail l r =
    let rec_sid = upper r.session_id in nonempty tail && (rec_sid == tail || ends_with rec_sid tail)

abbrev pub label_or_empty : Option (Text × Rec) → Text
label_or_empty none = []
label_or_empty (some (l, r)) = l

unfoldable pub label_of_pane : Registry → Text → Text
unfolding sid_tail
label_of_pane d tsid = label_or_empty (find_item (is_pane_of (sid_tail tsid)) d)

-- `_cmd_drain` looks at its argument, at `TEAMMATE_LABEL`, and then at the pane; `_cmd_inbox` does
-- not look at `TEAMMATE_LABEL`. An empty text is a failure.
unfoldable pub drain_label : Registry → Text → Text → Text → Text
unfolding label_of_pane
drain_label d arg teammate_label tsid =
    if nonempty (strip arg)
    then strip arg
    else if nonempty (strip teammate_label)
    then strip teammate_label
    else label_of_pane d tsid

unfoldable pub inbox_label : Registry → Text → Text → Text
unfolding label_of_pane
inbox_label d arg tsid = if nonempty arg then arg else label_of_pane d tsid

pub data Folder : Type 0 where
  in_inbox in_processed : Folder

pub record Candidate : Type 0 where
  pub created_at : Option ℕ
  pub name : Text
  pub subdir : Folder
  pub matched : Text
  pub data_ : Message

abbrev pub text_or_empty : Option Text → Text
text_or_empty none = []
text_or_empty (some t) = t

-- The wanted sender that a message is from, or whose name begins its body; empty if there is none.
unfoldable pub matched_label : List Text → Message → Text
matched_label wanted m =
    let sender = text_or_empty m.from_ in
    let by_body = first (λ label. starts_with (strip m.body) (label ++ str ":")) wanted in
    let by_sender = if contains wanted sender then sender else [] in
    if nonempty by_sender then by_sender else text_or_empty by_body

abbrev pub file_name : Text → Text
file_name job_id = job_id ++ str ".json"

unfoldable pub candidates_in : List Text → Folder → Dict Message → List Candidate
unfolding matched_label
candidates_in wanted f [] = []
candidates_in wanted f ((job_id, m) ∷ d) =
    let rest = candidates_in wanted f d in
    let label = matched_label wanted m in
    if nonempty label
    then record {
      created_at = m.created_at;
      name = file_name job_id;
      subdir = f;
      matched = label;
      data_ = m;
    }
      ∷ rest
    else rest

-- Texts of one form are ordered as their times are; a missing time is the empty text.
abbrev pub time_le : Option ℕ → Option ℕ → Bool
time_le none t = true
time_le (some a) none = false
time_le (some a) (some b) = leb a b

-- `key=lambda item: (item[0], item[1])`
unfoldable pub candidate_le : Candidate → Candidate → Bool
candidate_le a b =
    if a.created_at == b.created_at
    then text_le a.name b.name
    else time_le a.created_at b.created_at

unfoldable pub candidates : List Text → Box → List Candidate
unfolding candidates_in
candidates wanted b =
    candidates_in wanted in_inbox b.inbox ++ candidates_in wanted in_processed b.processed

unfoldable pub next_candidate : List Text → Box → Option Candidate
unfolding candidates
next_candidate wanted b = first_of (sort_by candidate_le (candidates wanted b))

-- `path.unlink` takes the file of that name from its folder.
abbrev pub keep_others : Text → Dict Message → Dict Message
keep_others name d = keep_items (λ job_id m. not (file_name job_id == name)) d

abbrev pub unlink_candidate : Box → Candidate → Box
unlink_candidate b c = elim c.subdir [
  | in_inbox ↦ record b { inbox = keep_others c.name b.inbox }
  | in_processed ↦ record b { processed = keep_others c.name b.processed }
]

-- `_cmd_next_reply`: the exit code, the reply that is printed, and the mailbox.
abbrev pub printed : Bool → Box → Option Candidate → ℕ × Option Candidate × Box
printed consume b none = (1, none, b)
printed consume b (some c) = (0, some c, if consume then unlink_candidate b c else b)

unfoldable pub next_reply : Bool → List Text → Box → ℕ × Option Candidate × Box
unfolding next_candidate
next_reply consume wanted b = printed consume b (next_candidate wanted b)
