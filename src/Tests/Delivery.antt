-- ===== src/Tests/Delivery.antt =====
-- Delivery to a Codex mailbox: the worker, the transport, leases and receipts.
use teammate_mcp.Base.{
  is_some, option_eq, nat_eq, text_eq, ℕ, ◌+◌, ◌≤◌, ◌≡◌, refl, ◌↔◌, ◌⊎◌, true, none, some, List, [],
  ◌∷◌, arith,
}
use teammate_mcp.Base.Text.{Text, str}
use teammate_mcp.Base.Dict.{get, put}
use teammate_mcp.Registry.{rec_eq, idle, nonempty}
use teammate_mcp.Work.{work_terminal, retry}
use teammate_mcp.Mailbox.{
  completed, drained, Terminal, Message, Box, Home, box, set_box, is_name, save_processed_receipt,
  move_to_processed,
}
use teammate_mcp.Lease.{eligible_for_watch, available_to_hook}
use teammate_mcp.Lease.Exclusion.{eligible_for_watch_iff}
use teammate_mcp.Mailbox.Receipts.{outcome, save_all, latest_reply, completed_stays, IsRecorded}
use teammate_mcp.Codex
use teammate_mcp.Codex.{
  Peer, Answer, answered, input_thread, input_client, client_id, Input, Failure, rpc_error,
}
use teammate_mcp.Worker
use teammate_mcp.Worker.{
  is_dispatching, settle, read_delivery, write_state, send_record, deliver_record, turn_text,
  is_true, dispatching_step,
}
use teammate_mcp.Worker.Safety.{IsDue}
use teammate_mcp.Worker.Once.{
  Event, attempts, retries, others, deliver_all, deliver_all_once, deliver_record_addressed,
}
use teammate_mcp.Worker.Retry.{Failing, fail_all, fail_all_ends}
use teammate_mcp.Tests.Data.{mail_rec, mail_label, job, mail, mail_box, home, probe}

-- The server accepts an input for the idle thread "t1".
abbrev peer : Peer
peer = record {
  thread_read =
      answered (record { id = some (str "t1"); accepts_input = true; status = Codex.idle_thread });
  turns_list = answered [];
  dispatch = answered (record { turn_id = none; turn = some (str "turn-1") });
}

abbrev attempt : Worker.Attempt
attempt = record {
  lock_free = true;
  receipt_free = true;
  now = 3000;
  later = 3500;
  meanwhile = λ h. h;
  afterwards = λ h. h;
  peer = peer;
}

abbrev client : Text
client = str "mcp_call.py"

-- An attempt, the receiver's `retry_delivery`, and another attempt.
abbrev events : List Event
events =
    attempts mail_rec attempt
    ∷ retries mail_label [] true
    ∷ others (λ h. h)
    ∷ attempts mail_rec attempt
    ∷ []

deliver_all_once_example : (deliver_all client home mail_label job events).1 ≤ 1
deliver_all_once_example =
    deliver_all_once client home mail_label job events
      ((λ h. refl), (tt, ((λ h. refl), ((λ h. refl), tt))))

attempt_sends : nonempty (deliver_record client home mail_label job mail_rec attempt).inputs ≡ true
unfolding deliver_record read_delivery send_record Codex.deliver dispatching_step rec_eq get put
    text_eq option_eq nat_eq
attempt_sends = refl

deliver_record_addressed_example :
    (thread_id : Text) × (m : Message) × (i : Input) × IsDue client home mail_label job mail_rec
      attempt thread_id m
    × ((deliver_record client home mail_label job mail_rec attempt).inputs ≡ i ∷ [])
    × (input_thread i ≡ thread_id)
    × (input_client i ≡ client_id job)
    × (is_some (get (box home mail_label).inbox job) ≡ true)
    × (is_true mail_rec.auto_delivery ≡ true → get home.registry mail_label ≡ some mail_rec)
deliver_record_addressed_example =
    deliver_record_addressed client home mail_label job mail_rec attempt attempt_sends

abbrev failing : Failing
failing = record { error = rpc_error; on_disk = none; later = 4000 }

fail_all_ends_example : work_terminal (fail_all none (failing ∷ failing ∷ failing ∷ [])) ≡ true
fail_all_ends_example =
    fail_all_ends none (failing ∷ failing ∷ []) failing (refl, (refl, (refl, tt))) (omega arith)

abbrev rejection : Codex.Result Codex.Delivered
rejection = Codex.Result.err rpc_error

retry_state : (settle none none rejection 4000).state ≡ retry
unfolding settle
retry_state = refl

abbrev passes : ℕ → Codex.Result (Unit {0}) × ℕ
passes n = (Codex.Result.ok tt, n + 1)

delivers :
    (Codex.deliver peer passes (str "t1") (str "hi") job (some idle) 0).inputs
    ≡ Input.start (str "t1") (str "hi") (client_id job) ∷ []
unfolding Codex.deliver text_eq option_eq nat_eq
delivers = refl

abbrev leased : Message
leased = record mail { delivery_lease = some (record { pid = 7; expires_at = 9000 }) }

eligible_for_watch_iff_example : (eligible_for_watch probe mail 20000 ≡ true) ↔ (
    (available_to_hook probe mail 20000 ≡ true)
    × ((is_some mail.delivery_mode ≡ true)
        ⊎ (mail.created_at ≡ none)
        ⊎ ((t : ℕ) × (mail.created_at ≡ some t) × (t + 15000 ≤ 20000))))
eligible_for_watch_iff_example = eligible_for_watch_iff probe mail 20000

abbrev answer : Terminal
answer = record { status = completed; reply = str "yes"; delivery_result = none }

abbrev drain : Terminal
drain = record { status = drained; reply = []; delivery_result = none }

abbrev answered_box : Box
answered_box = record mail_box {
  inbox = [];
  processed = (job, record mail { terminal = some answer }) ∷ [];
}

outcome_answer : outcome answered_box job ≡ some answer
unfolding get text_eq nat_eq
outcome_answer = refl

completed_stays_example :
    (q : Terminal) × (outcome (save_all answered_box job (drain ∷ [])) job ≡ some q)
    × (q.status ≡ completed)
    × (q.reply ≡ latest_reply (str "yes") (drain ∷ []))
completed_stays_example = completed_stays answered_box job answer (drain ∷ []) outcome_answer refl

abbrev receipted : Home
receipted = set_box home mail_label (save_processed_receipt (box home mail_label) job answer)

moves : move_to_processed home mail_label job answer ≡ some receipted
unfolding move_to_processed is_name nat_eq
moves = refl

home-IsRecorded : IsRecorded mail_box
unfolding get text_eq nat_eq
home-IsRecorded j i = i
