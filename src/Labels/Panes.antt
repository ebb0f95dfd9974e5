-- ===== src/Labels/Panes.antt =====
-- src/teammate_mcp/server.py: how a pane gets its label: `register_self`, `auto_register_session`
-- and `_auto_register_from_env`. The panes that iTerm lists are a parameter. The tab title, the log
-- and the session name in the record are not modelled. Times are milliseconds.
pub mod Stable
pub mod Command
use teammate_mcp.Base.{
  if◌then◌else◌, Eq, ◌==◌, option_eq, nat_eq, text_eq, all, first, ℕ, ◌-◌, ◌/◌, Bool, true, false,
  not, ◌&&◌, ◌||◌, Option, none, some, List, [], arith,
}
use teammate_mcp.Base.Text.{Text, upper, strip, ends_with}
use teammate_mcp.Base.Dict.{find_item}
use teammate_mcp.Registry.{
  mailbox, Rec, rec_eq, Registry, no_extra, RegistryError, Outcome, ok, err, nonempty, register,
  register_mailbox,
}
use teammate_mcp.Registry
use teammate_mcp.Spawning.{after_colon}
use teammate_mcp.Labels.{next_auto_label, Caller, current_thread}

-- A `SessionRef`; a missing name is empty.
pub record Pane : Type 0 where
  pub session_id : Text
  pub name : Text
  pub job : Text
  pub cwd : Option Text

-- What a second attempt changes.
abbrev pub or_again : Outcome Registry → Outcome Registry → Outcome Registry
or_again (ok d) again = ok d
or_again (err e) again = again

-- The registration by way of the daemon, where it serves the request, and else directly; the
-- daemon's refusal is tried again.
unfoldable pub register_via_daemon_or_direct :
    Bool → Registry → Text → Text → ℕ → Text → Option Text → ℕ → Outcome Registry
register_via_daemon_or_direct served d label session_id pid job cwd now =
    let direct = register d label session_id pid job cwd no_extra true now in
    if served then or_again direct direct else direct

-- The label that the pane has.
abbrev pub is_of_pane : Text → Text → Rec → Bool
is_of_pane session_id l r = upper r.session_id == upper session_id

abbrev pub key_of : Option (Text × Rec) → Option Text
key_of none = none
key_of (some (l, r)) = some l

unfoldable pub existing_label : Registry → Text → Option Text
existing_label d session_id = key_of (find_item (is_of_pane session_id) d)

-- `explicit or existing_label or _next_auto_label(...)`
abbrev pub or_auto : Registry → Pane → Option Text → Text
or_auto d me none = next_auto_label d me.job me.name
or_auto d me (some l) = if nonempty l then l else next_auto_label d me.job me.name

unfoldable pub chosen_label : Registry → Text → Pane → Text
unfolding existing_label
chosen_label d explicit me =
    if nonempty explicit then explicit else or_auto d me (existing_label d me.session_id)

abbrev pub has_thread : Option Text → Bool
has_thread none = false
has_thread (some t) = nonempty t

pub data Registered : Type 0 where
  as_mailbox no_session not_found : Registered
  refused : RegistryError → Registered
  registered : Text → Registry → Registered

abbrev pub outcome_of : Text → Outcome Registry → Registered
outcome_of label (ok d) = registered label d
outcome_of label (err e) = refused e

-- `d` is the registry when the labels are read, without the lock; `meanwhile` is what others change
-- until the registration takes it.
unfoldable pub register_pane :
    Bool → Registry → Text → Pane → ℕ → ℕ → (Registry → Registry) → Registered
unfolding chosen_label register_via_daemon_or_direct
register_pane served d explicit me pid now meanwhile =
    let label = chosen_label d explicit me in
    outcome_of label
      (register_via_daemon_or_direct served (meanwhile d) label me.session_id pid me.job me.cwd now)

abbrev pub or_not_found : Option Pane → (Pane → Registered) → Registered
or_not_found none f = not_found
or_not_found (some me) f = f me

-- What follows the first ":" of `TERM_SESSION_ID`, or all of it.
abbrev pub tail_of : Text → Text
tail_of tsid = elim (after_colon tsid) [ none ↦ tsid | some t ↦ t ]

-- `register_self`; a session with a thread registers as a mailbox, by `register_mailbox`.
unfoldable pub register_self :
    Bool → Registry → Caller → Text → List Pane → Text → ℕ → ℕ → (Registry → Registry) → Registered
unfolding register_pane after_colon
register_self served d c tsid refs label pid now meanwhile =
    let sid_tail = tail_of tsid in
    if has_thread c.request_thread || (nonempty (current_thread c) && not (nonempty sid_tail))
    then as_mailbox
    else if not (nonempty sid_tail)
    then no_session
    else or_not_found
        (first
          (λ r.
            ends_with (upper r.session_id) (upper sid_tail) || upper r.session_id == upper sid_tail)
          refs)
        (λ me. register_pane served d (strip label) me pid now meanwhile)

-- `auto_register_session`; no explicit label is the empty text.
unfoldable pub auto_register_session :
    Bool → Registry → Text → List Pane → Text → ℕ → ℕ → (Registry → Registry) → Registered
unfolding register_pane
auto_register_session served d session_id refs explicit_label pid now meanwhile =
    or_not_found (first (λ r. upper r.session_id == upper session_id) refs)
      (λ me. register_pane served d explicit_label me pid now meanwhile)

-- `_auto_register_from_env` with the session's tail found; `listed` tells whether iTerm answers.
unfoldable pub auto_register_from_env :
    Bool → Registry → Text → Bool → List Pane → Text → ℕ → ℕ → (Registry → Registry) → Registered
unfolding register_pane
auto_register_from_env served d sid_tail listed refs teammate_label pid now meanwhile =
    if not listed
    then not_found
    else or_not_found (first (λ r. ends_with (upper r.session_id) (upper sid_tail)) refs)
        (λ me. register_pane served d (strip teammate_label) me pid now meanwhile)
