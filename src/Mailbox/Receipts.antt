-- ===== src/Mailbox/Receipts.antt =====
-- What receipts and inbox writes do to a mailbox.
use teammate_mcp.Base.{
  ==_refl, if◌then◌else◌, is_some, ◌==◌, contains, option_eq, nat_eq, text_eq, all, ◌≡◌, refl, ap,
  ◌∙◌, true, false, ◌&&◌, Option, none, some, List, [], ◌∷◌, arith,
}
use teammate_mcp.Base.Text.{Text, str, starts_with}
use teammate_mcp.Base.Dict.{get, get-put, get-pop}
use teammate_mcp.Registry.{nonempty}
use teammate_mcp.Mailbox.{
  write_inbox, completed, Terminal, Message, Box, Home, box, is_word, is_name, write_history,
  write_pending, source_record, is_completed, merge_terminal, receipt, save_processed_receipt,
  move_to_processed,
}

-- The receipt of a job that the next one would extend.
abbrev pub outcome : Box → Text → Option Terminal
outcome b job_id = (source_record job_id (get b.inbox job_id) (get b.processed job_id)).terminal

-- A receipt takes its job out of the inbox, stores it as processed with the merged outcome, and
-- touches no other job and no other directory.
pub save_processed_receipt_effect :
    (b : Box) (job_id j : Text) (new : Terminal)
    → let b' = save_processed_receipt b job_id new in
      (get b'.inbox j ≡ (if job_id == j then none else get b.inbox j))
      × (get b'.processed j ≡ (
          if job_id == j
          then some
              (receipt (source_record job_id (get b.inbox job_id) (get b.processed job_id)) new)
          else get b.processed j))
      × (b'.history ≡ b.history)
      × (b'.responses ≡ b.responses)
      × (b'.delivery ≡ b.delivery)
unfolding save_processed_receipt
save_processed_receipt_effect b job_id j new = (rw get-pop refl, rw get-put refl, refl, refl, refl)

outcome-save :
    (b : Box) (job_id : Text) (new : Terminal)
    → outcome (save_processed_receipt b job_id new) job_id
      ≡ some (merge_terminal (outcome b job_id) new)
unfolding save_processed_receipt
outcome-save b job_id new = ground (
  arith,
  get-pop b.inbox job_id job_id,
  get-put b.processed job_id job_id
      (receipt (source_record job_id (get b.inbox job_id) (get b.processed job_id)) new),
)

-- Receipts of one job, in order.
abbrev pub save_all : Box → Text → List Terminal → Box
save_all b job_id [] = b
save_all b job_id (t ∷ ts) = save_all (save_processed_receipt b job_id t) job_id ts

-- The reply that stands after more receipts: the last completed one that carries a text.
abbrev pub latest_reply : Text → List Terminal → Text
latest_reply r [] = r
latest_reply r (t ∷ ts) =
    latest_reply (if is_completed t.status && nonempty t.reply then t.reply else r) ts

merge_completed :
    (p t : Terminal)
    → p.status ≡ completed
    → ((merge_terminal (some p) t).status ≡ completed)
      × ((merge_terminal (some p) t).reply
          ≡ (if is_completed t.status && nonempty t.reply then t.reply else p.reply))
unfolding merge_terminal
merge_completed p t h = ground arith

-- A job that is completed stays completed under any later receipts, and its reply is the last one
-- that a completed receipt carried: an empty or an incomplete receipt never erases it.
pub completed_stays :
    (b : Box) (job_id : Text) (p : Terminal) (ts : List Terminal)
    → outcome b job_id ≡ some p
    → p.status ≡ completed
    → (q : Terminal) × (outcome (save_all b job_id ts) job_id ≡ some q)
      × (q.status ≡ completed)
      × (q.reply ≡ latest_reply p.reply ts)
completed_stays b job_id p [] o h = (p, o, h, refl)
completed_stays b job_id p (t ∷ ts) o h =
    let m = merge_completed p t h in
    let (q, o', h', r) =
      completed_stays (save_processed_receipt b job_id t) job_id (merge_terminal (some p) t) ts
        (outcome-save b job_id t ∙ ap (λ x. some (merge_terminal x t)) o) m.0 in
    (q, o', h', r ∙ ap (λ x. latest_reply x ts) m.1)

all_word-no_slash : (s : Text) → all is_word s ≡ true → contains s b'/' ≡ false
unfolding nat_eq
all_word-no_slash [] h = refl
all_word-no_slash (c ∷ s) h = ground (arith, all_word-no_slash s)

-- A name that the pattern accepts holds no path separator, and does not begin with a dot.
pub is_name_safe :
    (s : Text) → is_name s ≡ true → (contains s b'/' ≡ false) × (starts_with s (str ".") ≡ false)
unfolding is_name starts_with nat_eq
is_name_safe [] h = cc
is_name_safe (c ∷ s) h = (ground (arith, all_word-no_slash s), ground arith)

-- A receipt is written only for names that stay inside the mailbox root, and changes no other
-- label's mailbox, nor the registry.
pub move_to_processed_effect :
    (h h' : Home) (target job_id l : Text) (new : Terminal)
    → move_to_processed h target job_id new ≡ some h'
    → (contains target b'/' ≡ false)
      × (contains job_id b'/' ≡ false)
      × (starts_with target (str ".") ≡ false)
      × (starts_with job_id (str ".") ≡ false)
      × (h'.registry ≡ h.registry)
      × (get h'.boxes l ≡ (
          if target == l
          then some (save_processed_receipt (box h target) job_id new)
          else get h.boxes l))
unfolding move_to_processed
move_to_processed_effect h h' target job_id l new done = ground (
  arith,
  is_name_safe target,
  is_name_safe job_id,
  get-put h.boxes target l (save_processed_receipt (box h target) job_id new),
)

-- Every message in the inbox has its envelope in the history.
abbrev pub IsRecorded : Box → Type 0
IsRecorded b = (j : Text) → is_some (get b.inbox j) ≡ true → is_some (get b.history j) ≡ true

-- An inbox write keeps the envelopes, also when it stops between its two replacements.
pub write_inbox-IsRecorded :
    (b : Box) (m : Message)
    → IsRecorded b
    → IsRecorded (write_history b m) × IsRecorded (write_pending (write_history b m) m)
unfolding write_history write_pending
write_inbox-IsRecorded b m r = (
  λ j i. ground (arith, r j, get-put b.history m.job_id j m),
  λ j i. ground (arith, r j, get-put b.history m.job_id j m, get-put b.inbox m.job_id j m),
)

pub save_processed_receipt-IsRecorded :
    (b : Box) (job_id : Text) (new : Terminal)
    → IsRecorded b
    → IsRecorded (save_processed_receipt b job_id new)
unfolding save_processed_receipt
save_processed_receipt-IsRecorded b job_id new r j i = ground (arith, r j, get-pop b.inbox job_id j)

-- After a write of the inbox the message is there, and the others are as they were.
pub inbox-write_inbox :
    (h : Home) (label job_id : Text) (m : Message)
    → get (box (write_inbox h label m) label).inbox job_id
      ≡ (if m.job_id == job_id then some m else get (box h label).inbox job_id)
unfolding write_inbox write_pending write_history
inbox-write_inbox h label job_id m = simp (get-put, ==_refl) refl

pub inbox-write_inbox_self :
    (h : Home) (label : Text) (m : Message)
    → get (box (write_inbox h label m) label).inbox m.job_id ≡ some m
inbox-write_inbox_self h label m = ground (arith, inbox-write_inbox h label m.job_id m)
