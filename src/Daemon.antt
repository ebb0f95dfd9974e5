-- ===== src/Daemon.antt =====
-- src/teammate_mcp/daemon.py: the requests that the daemon serves, one at a time, over the
-- registry. A request is a line: absent, late, not JSON, or an operation with its arguments. The
-- socket, the process and the log are not modelled. Times are milliseconds.
pub mod Requests
pub mod RoundTrip
use teammate_mcp.Base.{
  if◌then◌else◌, Eq, ◌==◌, option_eq, nat_eq, text_eq, length, ℕ, ◌-◌, ◌/◌, Bool, true, not, ◌||◌,
  Option, none, some, List, [], arith,
}
use teammate_mcp.Base.Text.{Text, str, upper, strip, starts_with}
use teammate_mcp.Base.Dict.{get, keys, find_item}
use teammate_mcp.Registry
use teammate_mcp.Registry.{closed, Rec, rec_eq, Registry, Extra, RegistryError, Outcome, nonempty}
use teammate_mcp.Mailbox.{Home}
use teammate_mcp.Address
use teammate_mcp.Address.{prune_dead}

-- The arguments that the operations read.
pub record Args : Type 0 where
  pub label : Option Text
  pub session_id : Option Text
  pub pid : ℕ
  pub job : Text
  pub cwd : Option Text
  pub extra : Extra
  pub target : Text

pub data Line : Type 0 where
  late closed_line bad_json : Line
  request : Text → Args → Line

pub data Problem : Type 0 where
  not_json unknown_op missing_arg request_timeout cannot_archive : Problem
  registry_error : RegistryError → Problem

pub data Result : Type 0 where
  registered unregistered : Text → Result
  labels : Registry → Result
  found : Option Rec → Result
  removed : List Text → Result
  health : ℕ → Result

-- `silent` is a connection that is closed with no answer.
pub data Response : Type 0 where
  silent : Response
  ok : Result → Response
  error : Problem → Response

-- What the request meets outside: the clock, the open panes, and whether directories move.
pub record World : Type 0 where
  pub now : ℕ
  pub alive : List Text
  pub renames : Text → Bool

-- The test of `_op_lookup` on a record's session id.
abbrev pub matches : Text → Text → Rec → Bool
matches target l r =
    let sid = upper r.session_id in
    sid == target || starts_with sid target || starts_with target sid

unfoldable pub op_lookup : Registry → Text → Option Rec
op_lookup d target =
    let spec = strip target in
    if not (nonempty spec) then none else elim (get d spec) [
      | some r ↦ some r
      | none ↦ elim (find_item (matches (upper spec)) d) [ none ↦ none | some (l, r) ↦ some r ]
    ]

abbrev pub registered_or : Home → Text → Outcome Registry → Response × Home
registered_or h label (Outcome.ok d) = (ok (registered label), record h { registry = d })
registered_or h label (Outcome.err e) = (error (registry_error e), h)

unfoldable pub op_register : Home → World → Args → Response × Home
op_register h w a = elim a.label [
  | none ↦ (error missing_arg, h)
  | some label ↦ elim a.session_id [
    | none ↦ (error missing_arg, h)
    | some sid ↦
        registered_or h label
          (Registry.register h.registry label sid a.pid a.job a.cwd a.extra true w.now)
  ]
]

abbrev pub unregistered_or : Home → Text → Option Home → Response × Home
unregistered_or h label (some h') = (ok (unregistered label), h')
unregistered_or h label none = (error cannot_archive, h)

unfoldable pub op_unregister : Home → World → Args → Response × Home
op_unregister h w a = elim a.label [
  | none ↦ (error missing_arg, h)
  | some label ↦ unregistered_or h label (Address.unregister h label (w.renames label))
]

unfoldable pub op_prune : Home → World → Response × Home
op_prune h w =
    let (h', gone) = prune_dead h w.alive w.now 60000 w.renames in (ok (removed gone), h')

unfoldable pub handle_client : Home → World → Line → Response × Home
unfolding text_eq
handle_client h w late = (error request_timeout, h)
handle_client h w closed_line = (silent, h)
handle_client h w bad_json = (error not_json, h)
handle_client h w (request op a) =
    if op == str "register"
    then op_register h w a
    else if op == str "unregister"
    then op_unregister h w a
    else if op == str "list"
    then (ok (labels h.registry), h)
    else if op == str "lookup"
    then (ok (found (op_lookup h.registry a.target)), h)
    else if op == str "prune"
    then op_prune h w
    else if op == str "health"
    then (ok (health (length (keys h.registry))), h)
    else (error unknown_op, h)
