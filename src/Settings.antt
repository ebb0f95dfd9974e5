-- ===== src/Settings.antt =====
-- The tools of src/teammate_mcp/server.py by which a session manages its own address:
-- `retry_delivery`, `configure_mailbox_delivery`, `register_mailbox`, and how a target's pane is
-- resolved. `caller` and `owner` are what Labels computes; the app-server's answer, its socket's
-- path and what other processes do while it is awaited are parameters.
pub mod Owner
use teammate_mcp.Base.{
  leb, if◌then◌else◌, Eq, ◌==◌, option_eq, nat_eq, text_eq, length, all, ℕ, ◌+◌, ◌-◌, ◌/◌, Bool,
  true, false, not, ◌&&◌, ◌||◌, Option, none, some, List, [], ◌∷◌, ◌++◌, arith,
}
use teammate_mcp.Base.Text.{Text, str, lower, strip}
use teammate_mcp.Base.Dict.{get, put, keys, keep_items, find_item}
use teammate_mcp.Registry
use teammate_mcp.Registry.{rec_eq, nonempty, Registry, Rec, Policy, is_mailbox, Outcome}
use teammate_mcp.Work.{Work, retry, failed, queued, only}
use teammate_mcp.Mailbox.{Message, Home, box, is_name, is_alnum, is_word}
use teammate_mcp.Codex.{Thread, Answer, answered}
use teammate_mcp.Worker.{read_delivery, write_state, is_true}
use teammate_mcp.Labels.{only_key, is_single}
use teammate_mcp.Ask.{or_text}

pub data RetryRefusal : Type 0 where
  not_receiver invalid_job_id in_progress not_failed not_pending owner_changed : RetryRefusal

-- `requeued` says whether the worker will deliver it.
pub data Retry : Type 0 where
  refused : RetryRefusal → Retry
  requeued : Bool → Retry

-- `state.get("state") in ("failed", "retry")`
abbrev pub is_retryable : Option Work → Bool
is_retryable none = false
is_retryable (some w) = elim w.state [ failed ↦ true | retry ↦ true | _ ↦ false ]

abbrev pub requeue : Home → Text → Text → Message → Option Rec → Retry × Home
requeue h label job_id m none = (refused owner_changed, h)
requeue h label job_id m (some endpoint) =
    if m.recipient_thread_id == endpoint.thread_id
    then (requeued (is_true endpoint.auto_delivery), write_state h label job_id (only queued))
    else (refused owner_changed, h)

unfoldable pub retry_delivery : Home → Text → Text → Text → Bool → Retry × Home
retry_delivery h caller label job_id lock_free =
    let label' = or_text label caller in
    if not (nonempty caller) || not (label' == caller)
    then (refused not_receiver, h)
    else if not (is_name job_id)
    then (refused invalid_job_id, h)
    else if not lock_free
    then (refused in_progress, h)
    else if not (is_retryable (read_delivery h label' job_id))
    then (refused not_failed, h)
    else elim (get (box h label').inbox job_id) [
      | none ↦ (refused not_pending, h)
      | some m ↦ requeue h label' job_id m (get h.registry label')
    ]

-- The app-server knows the thread, and it takes input.
abbrev pub takes_input : Answer Thread → Text → Bool
takes_input (answered t) owner = t.id == some owner && t.accepts_input
takes_input _ owner = false

-- The record with the delivery settings; only enabling clears the error and sets the directory.
unfoldable pub configured : Rec → Policy → Bool → Option Text → Text → Rec
configured r policy enabled cwd socket =
    let r' = record r {
      auto_delivery = some enabled;
      delivery_policy = some policy;
      socket_path = some socket;
    } in
    if enabled then record r' { setup_error = none; cwd = cwd } else r'

abbrev pub owns : Text → Option Rec → Bool
owns owner none = false
owns owner (some r) = r.thread_id == some owner

-- An unknown policy is `none`. The answer says whether the settings were written.
unfoldable pub configure_mailbox_delivery :
    Registry
    → Text
    → Text
    → Option Policy
    → Bool
    → Answer Thread
    → Option Text
    → Text
    → (Registry → Registry)
    → Bool × Registry
configure_mailbox_delivery d owner label none enabled thread cwd socket meanwhile = (false, d)
configure_mailbox_delivery d owner label (some policy) enabled thread cwd socket meanwhile =
    if not (nonempty owner) || not (owns owner (get d label))
    then (false, d)
    else if enabled && not (takes_input thread owner)
    then (false, d)
    else if not (get (meanwhile d) label == get d label)
    then (false, meanwhile d)
    else (
      true,
      put (meanwhile d) label
          (configured (Registry.rec_or_empty (get d label)) policy enabled cwd socket),
    )

-- `re.fullmatch(r"[A-Za-z0-9][A-Za-z0-9_-]{0,79}", label)`
abbrev pub is_label : Text → Bool
is_label [] = false
is_label (c ∷ s) = is_alnum c && all is_word s && leb (length s) 79

abbrev pub owned_by : Registry → Text → List Text
owned_by d thread =
    keys (keep_items (λ l r. is_mailbox r.transport && r.thread_id == some thread) d)

-- The label of a claim: the one that was given, the thread's own, or one made from its id.
unfoldable pub claim_label : Registry → Text → Text → Text
claim_label d label thread =
    if nonempty label
    then label
    else if is_single (owned_by d thread)
    then only_key (owned_by d thread)
    else str "codex-" ++ thread

-- The tool `register_mailbox`; `none` is an error text. `current` is the caller's thread.
unfoldable pub claim_mailbox : Registry → Text → Text → Text → Text → ℕ → Option (Text × Registry)
claim_mailbox d label thread_id current cwd now =
    let thread = or_text (strip thread_id) current in
    let label' = claim_label d label thread in
    if not (nonempty thread)
    then none
    else if not (is_label label')
    then none
    else elim (Registry.register_mailbox d label' thread cwd now) [
      | Outcome.ok d' ↦ some (label', d')
      | Outcome.err e ↦ none
    ]

abbrev or_absent : Text → Option Text
or_absent [] = none
or_absent (c ∷ s) = some (c ∷ s)

-- `_resolve_target_session_id`; `agent` is empty where there is no fallback agent.
unfoldable pub resolve_target_session_id : Registry → Text → Text → Option Text
resolve_target_session_id d target agent =
    if nonempty target
    then elim (get d target) [ none ↦ none | some r ↦ or_absent (strip r.session_id) ]
    else if nonempty agent
    then elim (find_item (λ l r. lower r.job == lower agent && nonempty (strip r.session_id)) d) [
      | none ↦ none
      | some (l, r) ↦ some (strip r.session_id)
    ]
    else none
