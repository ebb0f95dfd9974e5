-- ===== src/Wake.antt =====
-- The watchdog of src/teammate_mcp/watcher.py: `_wake`, which types one pending message into a
-- pane, and the pass over all labels with its cooldown and its starvation clocks. The screens, the
-- answers of AppleScript and of the lock, and what other processes do meanwhile are fields of
-- `Waking`. The heartbeat, the log and the endless loop are not modelled. Times are milliseconds.
pub mod Once
pub mod Starved
use teammate_mcp.Base.{
  leb, if◌then◌else◌, is_some, Eq, ◌==◌, contains, option_eq, nat_eq, text_eq, take, all, first, ℕ,
  ◌+◌, ◌-◌, ◌/◌, Bool, true, false, not, ◌&&◌, ◌||◌, Option, none, some, List, [], ◌∷◌, ◌++◌, arith,
}
use teammate_mcp.Base.Text.{Text, str, upper}
use teammate_mcp.Base.Dict.{Dict, get, put, pop, keys}
use teammate_mcp.Base.Order.{sorted}
use teammate_mcp.Registry.{Rec, rec_eq, Registry, nonempty}
use teammate_mcp.Mailbox.{
  Message, Attempt, Home, Box, box, write_inbox, move_to_processed, Status, Terminal,
}
use teammate_mcp.Mailbox
use teammate_mcp.Lease.{Probe, eligible_for_watch}
use teammate_mcp.Screen.{
  Action, wake, skip_typing, wake_starved, wait, wake_action, screen_user_is_typing,
  body_stuck_in_compose,
}
use teammate_mcp.Pane.{Key, inject, enter, Spool, format_peer_message, pane_state, lease_until}

pub record Waking : Type 0 where
  pub enabled : Bool
  pub got_lock : Bool
  pub pid : ℕ
  pub now : ℕ
  pub probe : ℕ → Probe
  pub spool : Spool
  pub screen : Text
  pub injects : Bool
  pub enters : Bool
  -- The screens after the body and after a line end.
  pub first_capture : Text
  pub second_capture : Text
  pub during_capture : Home → Home
  pub after_inject : Home → Home

-- What an attempt leaves, and the job whose body it typed.
pub record Woken : Type 0 where
  pub home : Home
  pub keys : List Key
  pub typed : Option Text
  pub ok : Bool

abbrev pub idle_wake : Home → Woken
idle_wake h = record { home = h; keys = []; typed = none; ok = false }

abbrev pub is_eligible : Waking → Option Message → Bool
is_eligible w none = false
is_eligible w (some m) = eligible_for_watch w.probe m w.now

-- The first file, by name, that the watchdog may take.
unfoldable pub first_eligible : Waking → Box → Option Text
unfolding sorted
first_eligible w b = first (λ j. is_eligible w (get b.inbox j)) (sorted (keys b.inbox))

-- Whether the body was submitted: no call failed, and it is not seen in the compose box.
unfoldable pub is_submitted : Waking → Text → Bool
is_submitted w job_id =
    if not w.injects
    then false
    else if not (body_stuck_in_compose w.first_capture job_id)
    then true
    else w.enters && not (body_stuck_in_compose w.second_capture job_id)

abbrev pub wake_keys : Waking → Message → List Key
wake_keys w m =
    inject 0 (format_peer_message w.spool m)
    ∷ (if w.injects && body_stuck_in_compose w.first_capture m.job_id then enter ∷ [] else [])

abbrev pub dispatch_record : Waking → Message → Message
dispatch_record w m = record m {
  delivery_lease = some (lease_until w.pid (w.now + 60000));
  pane_delivery = some (pane_state Attempt.dispatching none);
}

abbrev pub uncertain_record : Message → Message
uncertain_record m = record m {
  delivery_lease = none;
  pane_delivery = some (pane_state Attempt.uncertain (some (str "delivery failed")));
}

-- A failure is recorded where the file is still there.
unfoldable pub wake_failed : Text → Text → Message → Home → Home
unfolding write_inbox
wake_failed label j m h = elim (get (box h label).inbox j) [
  | none ↦ h
  | some latest ↦ write_inbox h label (uncertain_record m)
]

abbrev pub delivered_receipt : Terminal
delivered_receipt = record { status = Status.delivered; reply = []; delivery_result = none }

abbrev pub woken_by : Waking → Text → Text → Message → Home → Option Home → Woken
woken_by w label j m h (some h') = record {
  home = h';
  keys = wake_keys w m;
  typed = some m.job_id;
  ok = true;
}
woken_by w label j m h none = record {
  home = wake_failed label j m h;
  keys = wake_keys w m;
  typed = some m.job_id;
  ok = false;
}

-- The dispatch is recorded, the body typed, and the outcome recorded.
unfoldable pub type_pending : Waking → Text → Text → Message → Home → Woken
unfolding is_submitted write_inbox move_to_processed wake_failed
type_pending w label j m h =
    let h' = w.after_inject (write_inbox h label (dispatch_record w m)) in
    woken_by w label j m h' (
      if is_submitted w m.job_id
      then move_to_processed h' label m.job_id delivered_receipt
      else none)

-- The message once it was read: look at the screen, then look at the disk again.
unfoldable pub wake_message : Waking → Text → Text → Rec → Option Message → Home → Woken
unfolding type_pending
wake_message w label j r none h = idle_wake h
wake_message w label j r (some m) h =
    if screen_user_is_typing w.screen
    then idle_wake h
    else let h' = w.during_capture h in
      if not (is_some (get (box h' label).inbox j)) || not (get h'.registry label == some r)
      then idle_wake h'
      else type_pending w label j m h'

abbrev pub wake_first : Waking → Text → Rec → Option Text → Home → Woken
wake_first w label r none h = idle_wake h
wake_first w label r (some j) h = wake_message w label j r (get (box h label).inbox j) h

-- `_wake`
unfoldable pub wake_pane : Waking → Text → Text → Home → Woken
unfolding first_eligible wake_message
wake_pane w session_id label h =
    if not w.enabled || not w.got_lock then idle_wake h else elim (get h.registry label) [
      | none ↦ idle_wake h
      | some r ↦
          if not (upper r.session_id == upper session_id)
          then idle_wake h
          else wake_first w label r (first_eligible w (box h label)) h
    ]

-- When each label was last woken, and since when it has been working with mail.
pub record Clocks : Type 0 where
  pub last_wake : Dict ℕ
  pub starving_since : Dict ℕ

abbrev pub get_or : Dict ℕ → Text → ℕ → ℕ
get_or d k v = elim (get d k) [ none ↦ v | some n ↦ n ]

-- A pass reads the registry after `prune_dead`; `alive` holds the open panes, and `self_sid` is
-- the watchdog's own.
pub record Pass : Type 0 where
  pub alive : List Text
  pub self_sid : Text
  pub now : ℕ
  pub screens : Text → Text
  pub waking : Text → Waking

unfoldable pub is_candidate : Pass → Clocks → Home → Text → Rec → Bool
unfolding first_eligible
is_candidate p k h label r =
    contains p.alive (upper r.session_id)
    && (not (nonempty p.self_sid && upper r.session_id == p.self_sid)
        && (is_some (first_eligible (p.waking label) (box h label))
            && leb 6000 (p.now - get_or k.last_wake label 0)))

pub record Watched : Type 0 where
  pub home : Home
  pub clocks : Clocks
  pub keys : List Key

abbrev pub waited : Pass → Clocks → Text → ℕ
waited p k label = p.now - get_or k.starving_since label p.now

abbrev pub after_wake : Pass → Text → Clocks → Woken → Watched
after_wake p label k w = record {
  home = w.home;
  clocks =
      if w.ok
      then record {
        last_wake = put k.last_wake label p.now;
        starving_since = pop k.starving_since label;
      }
      else k;
  keys = w.keys;
}

-- One candidate of the pass.
abbrev pub act : Pass → Text → Text → Clocks → Home → Action → Watched
act p sid label k h skip_typing = record {
  home = h;
  clocks = record k { starving_since = pop k.starving_since label };
  keys = [];
}
act p sid label k h wait = record {
  home = h;
  clocks = record k {
    starving_since = put k.starving_since label (get_or k.starving_since label p.now);
  };
  keys = [];
}
act p sid label k h wake = after_wake p label k (wake_pane (p.waking label) sid label h)
act p sid label k h wake_starved = after_wake p label k (wake_pane (p.waking label) sid label h)

unfoldable pub watch_label : Pass → Text → Text → Clocks → Home → Watched
unfolding wake_action wake_pane
watch_label p sid label k h =
    act p sid label k h (wake_action (p.screens sid) (waited p k label) 90000)

-- The labels that may be woken, with their sessions, by the registry and the clocks at the start.
unfoldable pub candidates : Pass → Clocks → Home → Registry → List (Text × Text)
unfolding is_candidate
candidates p k h [] = []
candidates p k h ((label, r) ∷ d) =
    let rest = candidates p k h d in
    if is_candidate p k h label r then (label, upper r.session_id) ∷ rest else rest

unfoldable pub watch_labels : Pass → List (Text × Text) → Watched → Watched
unfolding watch_label
watch_labels p [] s = s
watch_labels p ((label, sid) ∷ rest) s =
    let r = watch_label p sid label s.clocks s.home in
    watch_labels p rest (record { home = r.home; clocks = r.clocks; keys = s.keys ++ r.keys })

-- `_scan_once`, once the dead labels are pruned.
unfoldable pub watch_once : Pass → Clocks → Home → Watched
unfolding candidates watch_labels
watch_once p k h =
    watch_labels p (candidates p k h h.registry) (record { home = h; clocks = k; keys = [] })
