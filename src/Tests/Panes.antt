-- ===== src/Tests/Panes.antt =====
-- Typing into panes, by an ask and by the watchdog.
use teammate_mcp.Base.{
  option_eq, nat_eq, text_eq, ℕ, ◌≤◌, ◌≡◌, refl, true, false, none, some, List, [], ◌∷◌, ◌++◌,
  arith,
}
use teammate_mcp.Base.Text.{str}
use teammate_mcp.Base.Dict.{get, put}
use teammate_mcp.Mailbox.{Home, Message, box, empty_box}
use teammate_mcp.Lease.{available_to_hook, eligible_for_watch}
use teammate_mcp.Queue.{Queue, empty_queue, Job, enqueue, message_id}
use teammate_mcp.Queue.Places.{Op, do_claim, do_complete, IsSingle}
use teammate_mcp.Queue.Lifecycle.{spec_run, stage, apply_all, stage-apply_all}
use teammate_mcp.Ask.{Server, Call, all_files}
use teammate_mcp.Screen.{
  screen_compose_is_empty, screen_user_is_typing, after_prompt, last_prompt, compose_text,
  body_stuck_in_compose, splitlines, stuck_marker, from_last_marker,
}
use teammate_mcp.Pane.{Spool, Typing, verify, is_stuck, type_message, finish}
use teammate_mcp.Pane.Held.{stuck_is_held}
use teammate_mcp.Wake.{Waking, Clocks, Pass}
use teammate_mcp.Wake.Once.{IsNamed, IsStep, wake_all, wake_all_once}
use teammate_mcp.Wake.Starved.{is_working, attempts, starved_is_woken}
use teammate_mcp.Tests.Data.{pane_label, mail_label, job, mail, home, probe}

abbrev call : Call
call = record {
  caller = mail_label;
  now = 3000;
  hex = str "cd";
  timeout = 60;
  meanwhile = λ h. h;
  writes = all_files;
  probe = probe;
}

abbrev spool : Spool
spool = record { root = str "/tmp"; threshold = 100 }

-- A pane that shows nothing of the body, with "hm" typed by its user.
abbrev typing : Typing
typing = record {
  pid = 7;
  mailbox_only = false;
  session_alive = true;
  renames = true;
  claims = true;
  spool = spool;
  got_lock = true;
  locked_at = 3000;
  snapshots = λ n. str "hm";
  patience = 3;
  ends_paste = true;
  injects = true;
  restores = false;
  captures = λ n. [];
  enters = λ n. true;
  before_lock = λ h. h;
  after_inject = λ h. h;
  at_end = λ h. h;
}

abbrev queued : Job
queued = (enqueue empty_queue 5 (str "ab") mail_label pane_label (str "hi") 1 60).0

abbrev queue : Queue
queue = (enqueue empty_queue 5 (str "ab") mail_label pane_label (str "hi") 1 60).1

abbrev pane_mail : Message
pane_mail = record mail { to = pane_label; recipient_thread_id = none }

abbrev server : Server
server = record { home = home; queue = queue }

-- The body is seen in the box after every line end.
abbrev stuck_typing : Typing
stuck_typing = record typing { captures = λ n. str "[teammate-mcp ASK j1" }

box_is_stuck : is_stuck (verify stuck_typing job).0 ≡ true
unfolding verify body_stuck_in_compose stuck_marker from_last_marker splitlines nat_eq
box_is_stuck = refl

stuck_is_held_example :
    let r = type_message stuck_typing pane_label pane_mail (str "hm") home in
    let f = finish call pane_label queue r r.home in
    (latest : Message) × (get (box f.1.home pane_label).inbox job ≡ some latest)
    × (latest.body ≡ str "hi")
    × (available_to_hook probe latest 900000 ≡ false)
    × (eligible_for_watch probe latest 900000 ≡ false)
stuck_is_held_example =
    stuck_is_held stuck_typing pane_label call queue pane_mail (str "hm") home probe 900000 refl
      box_is_stuck refl

-- A pane in the middle of a turn, and a watchdog that may type.
abbrev waking : Waking
waking = record {
  enabled = true;
  got_lock = true;
  pid = 7;
  now = 200000;
  probe = probe;
  spool = spool;
  screen = str "working";
  injects = true;
  enters = true;
  first_capture = [];
  second_capture = [];
  during_capture = λ h. h;
  after_inject = λ h. h;
}

-- A message waits for the pane.
abbrev pane_home : Home
pane_home = record home {
  boxes = (pane_label, record empty_box { inbox = (job, pane_mail) ∷ [] }) ∷ [];
}

pane_home-IsNamed : IsNamed pane_home pane_label
unfolding get
pane_home-IsNamed j m e = ground (arith, e)

fair : (h : Home) → IsStep pane_label h h
fair h = record { named = λ n. n; stays = λ j t. t }

wake_all_once_example :
    wake_all pane_label job pane_home
      ((waking, str "ab-12", λ h. h) ∷ (waking, str "AB-12", λ h. h) ∷ [])
    ≤ 1
wake_all_once_example =
    wake_all_once pane_label job pane_home
      ((waking, str "ab-12", λ h. h) ∷ (waking, str "AB-12", λ h. h) ∷ [])
      (((fair, fair), fair), (((fair, fair), fair), tt)) pane_home-IsNamed

abbrev pass : ℕ → Pass
pass now = record {
  alive = str "AB-12" ∷ [];
  self_sid = [];
  now = now;
  screens = λ s. str "working";
  waking = λ l. waking;
}

abbrev clocks : Clocks
clocks = record { last_wake = []; starving_since = [] }

working : is_working (str "working") ≡ true
unfolding screen_compose_is_empty screen_user_is_typing splitlines nat_eq after_prompt last_prompt
    compose_text
working = refl

starved_is_woken_example :
    1
    ≤ attempts
        (str "AB-12")
        pane_label
        (pass 1000 ∷ (pass 5000 ∷ []) ++ (pass 99000 ∷ []))
        clocks
        pane_home
unfolding get
starved_is_woken_example =
    starved_is_woken (str "AB-12") pane_label (pass 1000) (pass 99000) (pass 5000 ∷ []) clocks
      pane_home refl (working, (working, (working, tt))) (omega arith)

queue-IsSingle : IsSingle queue
unfolding enqueue get put
queue-IsSingle j = ground arith

abbrev ops : List Op
ops =
    do_claim (message_id 5 (str "ab")) true
    ∷ do_complete (message_id 5 (str "ab")) (str "yes") 9
    ∷ []

stage-apply_all_example :
    stage (apply_all queue ops) (message_id 5 (str "ab"))
    ≡ spec_run ops (message_id 5 (str "ab")) (stage queue (message_id 5 (str "ab")))
stage-apply_all_example =
    stage-apply_all queue ops (message_id 5 (str "ab")) queue-IsSingle (tt, (tt, tt))
