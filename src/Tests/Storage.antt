-- ===== src/Tests/Storage.antt =====
-- The file queue, asking, replying, the native channel and the pane's screen.
use teammate_mcp.Base.{
  List, ℕ, option_eq, nat_eq, text_eq, ◌≤◌, ◌≡◌, refl, true, false, none, some, [], ◌∷◌, arith,
}
use teammate_mcp.Base.Text.{Text, str}
use teammate_mcp.Base.Dict.{get, put}
use teammate_mcp.Registry.{rec_eq, Registry, awaiting_handshake}
use teammate_mcp.Mailbox.{Home, Message, Mode}
use teammate_mcp.Queue.{Queue, empty_queue, message_id, enqueue, claim}
use teammate_mcp.Queue.Places.{IsSingle}
use teammate_mcp.Queue.Interleaved.{
  Event, claims, begins_complete, begins_fail, writes, stops, idle_system, happen_all, is_there,
  no_job_lost,
}
use teammate_mcp.Ask.{all_files, Server, Call, is_refused, to_mailbox, ask}
use teammate_mcp.Ask.Queued.{IsUnsent, answer, IsQueued, ask_effect, ask_stays_pending}
use teammate_mcp.Locked.{
  Phase, loaded, Shared, after_attempt, move, is_in, start, attempt, load, save, Run, stop,
  then_step,
}
use teammate_mcp.Locked.Serial.{IsSound, run_all, saves, run_serial}
use teammate_mcp.Reply
use teammate_mcp.Reply.Once.{Try, reply_all, reply_all_once}
use teammate_mcp.Channel.{Pump, Visit, channel_of}
use teammate_mcp.Channel.Once.{visit_all, visit_all_once, IsKeyed}
use teammate_mcp.Tests.Data.{
  pane_rec, mail_rec, pane_label, mail_label, job, mail, mail_box, home, probe,
}

-- One job, pending.
abbrev one_job : Queue
one_job = (enqueue empty_queue 5 (str "ab") (str "a") (str "b") (str "q") 1 60).1

abbrev first_id : Text
first_id = message_id 5 (str "ab")

one_job-IsSingle : IsSingle one_job
unfolding enqueue get put
one_job-IsSingle j = ground (arith)

one_job_there : is_there one_job first_id ≡ true
unfolding enqueue get put text_eq nat_eq
one_job_there = refl

-- One process completes the job while another fails it and stops half way.
abbrev races : List Event
races =
    claims first_id true
    ∷ begins_complete first_id (str "42") 8
    ∷ begins_fail first_id (str "late") 9
    ∷ writes 1
    ∷ writes 0
    ∷ writes 1
    ∷ stops 0
    ∷ writes 1
    ∷ []

no_job_lost_example : is_there (happen_all (idle_system one_job) races).queue first_id ≡ true
no_job_lost_example = no_job_lost one_job races first_id one_job_there

claims_first :
    (claim one_job first_id true).0
    ≡ some (enqueue empty_queue 5 (str "ab") (str "a") (str "b") (str "q") 1 60).0
unfolding claim enqueue get put text_eq nat_eq
claims_first = refl

abbrev server : Server
server = record { home = home; queue = empty_queue }

abbrev call : Call
call = record {
  caller = pane_label;
  now = 3000;
  hex = str "cd";
  timeout = 60;
  meanwhile = λ h. h;
  writes = all_files;
  probe = probe;
}

accepts : is_refused (ask server call mail_label (str "hi") mail_label [] []).0 ≡ false
unfolding ask to_mailbox rec_eq get put text_eq nat_eq option_eq
accepts = refl

ask_effect_example :
    (is_refused (answer server call mail_label (str "hi") mail_label [] []).0 ≡ false
      → IsQueued server call mail_label (str "hi") mail_label [] [])
    × (is_refused (answer server call mail_label (str "hi") mail_label [] []).0 ≡ true
        → IsUnsent server call mail_label (str "hi") mail_label [] [])
ask_effect_example = ask_effect server call mail_label (str "hi") mail_label [] []

ask_stays_pending_example :
    let q = enqueue empty_queue 3000 (str "cd") pane_label mail_label (str "hi") 1 60 in
    let a = answer server call mail_label (str "hi") mail_label [] [] in
    (a.1.queue ≡ q.1) × (get a.1.queue.pending (message_id 3000 (str "cd")) ≡ some q.0)
unfolding get
ask_stays_pending_example =
    ask_stays_pending server call mail_label (str "hi") mail_label [] [] refl accepts

abbrev try : Try
try = record {
  call = record call { caller = mail_label };
  crash = Reply.runs;
  lock_free = true;
  reply = str "yes";
  others = λ s. s;
}

reply_all_once_example : (reply_all server mail_label job (try ∷ try ∷ [])).1 ≤ 1
reply_all_once_example =
    reply_all_once server mail_label job (try ∷ try ∷ [])
      (((λ h. refl), (λ s. refl)), (((λ h. refl), (λ s. refl)), tt))

abbrev pump : Pump
pump = record { label = pane_label; connection_id = str "c1"; nonce = str "n1"; is_ready = true }

-- The pane's label is connected to the pump.
abbrev connected : Registry
connected =
    (pane_label, record pane_rec { channel = some (channel_of pump awaiting_handshake 7 2000) })
    ∷ (mail_label, mail_rec)
    ∷ []

-- A message for the pane's native channel.
abbrev native : Message
native = record mail {
  to = pane_label;
  delivery_mode = some Mode.claude_channel;
  recipient_thread_id = none;
  recipient_session_id = some (str "ab-12");
}

abbrev native_home : Home
native_home = record {
  registry = connected;
  boxes = (pane_label, record mail_box { inbox = (job, native) ∷ [] }) ∷ [];
  archived = [];
}

abbrev visit : Visit
visit = record {
  now = 3000;
  later = 3100;
  first = true;
  second = true;
  notified = true;
  before_update = λ h. h;
  before_notify = λ h. h;
  after_notify = λ h. h;
}

native-IsKeyed : IsKeyed native_home pane_label job
unfolding get text_eq nat_eq
native-IsKeyed m e = cc e

visit_all_once_example :
    (visit_all pump probe job native_home ((visit, (λ h. h)) ∷ (visit, (λ h. h)) ∷ [])).1 ≤ 1
visit_all_once_example =
    visit_all_once pump probe job native_home ((visit, (λ h. h)) ∷ (visit, (λ h. h)) ∷ [])
      (
        (
          record {
            update = λ h. (λ k. k, λ e. e);
            notify_ = λ h. (λ k. k, λ e. e);
            after = λ h. (λ k. k, λ e. e);
          },
          λ h. (λ k. k, λ e. e),
        ),
        (
          (
            record {
              update = λ h. (λ k. k, λ e. e);
              notify_ = λ h. (λ k. k, λ e. e);
              after = λ h. (λ k. k, λ e. e);
            },
            λ h. (λ k. k, λ e. e),
          ),
          tt,
        ),
      )
      native-IsKeyed

-- A pane in which the user has typed.
abbrev typed_screen : Text
typed_screen = str "answer\n❯ hello\n"

-- Two processes put their number into a list; the second one waits for the first one.
abbrev put_number : ℕ → List ℕ → List ℕ
put_number p d = p ∷ d

abbrev nobody_in : Shared (List ℕ)
nobody_in = record { file = []; holder = none; phase = λ p. Phase.outside }

nobody_in-IsSound : IsSound nobody_in
nobody_in-IsSound = record { holds = λ p e. absurd (cc e); fresh = λ p d e. absurd (cc e) }

abbrev both_tried : Shared (List ℕ)
both_tried =
    let one = move (move nobody_in 1 Phase.trying) 2 Phase.trying in
    let got = record (move one 1 (after_attempt true false)) { holder = some 1 } in
    record (move got 2 (after_attempt false false)) { holder = some 1 }

both_try : Run put_number nobody_in both_tried
unfolding nat_eq
both_try =
    then_step
      (then_step (then_step (then_step stop (start 1 refl)) (start 2 refl))
        (attempt 1 true false refl (λ e. refl)))
      (attempt 2 false false refl (λ e. absurd (cc e)))

-- The first one has read the list and written it.
abbrev one_wrote : Shared (List ℕ)
one_wrote = record (move (move both_tried 1 (loaded [])) 1 Phase.saved) { file = put_number 1 [] }

one_writes : Run put_number nobody_in one_wrote
unfolding nat_eq after_attempt
one_writes = then_step (then_step both_try (load 1 refl)) (save 1 [] refl)

run_serial_example :
    ((p q : ℕ) → is_in (one_wrote.phase p) ≡ true → is_in (one_wrote.phase q) ≡ true → p ≡ q)
    × (1 ∷ [] ≡ run_all put_number (saves put_number one_writes) [])
run_serial_example = run_serial put_number nobody_in one_wrote one_writes nobody_in-IsSound
