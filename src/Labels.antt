-- ===== src/Labels.antt =====
-- Names for sessions, from src/teammate_mcp/server.py and session_identity.py: automatic labels,
-- and who the caller is. The environment and the request's thread are parameters.
pub mod Fresh
pub mod Callers
pub mod Panes
use teammate_mcp.Base.{
  leb, if◌then◌else◌, Eq, ◌==◌, contains, option_eq, nat_eq, text_eq, length, all, ℕ, zero, suc,
  ◌+◌, ◌-◌, ◌/◌, Bool, true, false, ◌&&◌, ◌||◌, Option, none, some, List, [], ◌∷◌, ◌++◌, arith,
}
use teammate_mcp.Base.Text.{Text, str, between, upper, lower, ends_with, has_text}
use teammate_mcp.Base.Dict.{keys, keep_items, find_item}
use teammate_mcp.Queue.{digits, width}
use teammate_mcp.Registry.{rec_eq, Registry, nonempty, is_mailbox}

-- `_classify`
unfoldable pub classify : Text → Text → Text
classify job session_name =
    if has_text (lower job) (str "codex")
    then str "codex"
    else if has_text (lower job) (str "claude")
    then str "claude"
    else if has_text (lower session_name) (str "codex")
    then str "codex"
    else if has_text (lower session_name) (str "claude")
    then str "claude"
    else str "agent"

-- `f"{base}{n}"`
unfoldable pub numbered : Text → ℕ → Text
unfolding digits width
numbered base n = base ++ digits (width n n) n

-- The loop from `n`; its fuel is the number of labels in use.
unfoldable pub first_free : List Text → Text → ℕ → ℕ → ℕ
first_free used base zero n = n
first_free used base (suc fuel) n =
    let more = first_free used base fuel (n + 1) in
    if contains used (numbered base n) then more else n

-- `_next_auto_label`
unfoldable pub next_auto_label : Registry → Text → Text → Text
unfolding classify first_free
next_auto_label d job session_name =
    let base = classify job session_name in
    let used = keys d in numbered base (first_free used base (length used) 1)

-- The request's thread, and the environment words that identify a caller. `environment_thread` and
-- `label` are stripped; `session_tail` is TERM_SESSION_ID behind its last colon.
pub record Caller : Type 0 where
  pub request_thread : Option Text
  pub environment_thread : Text
  pub label : Text
  pub session_tail : Text

-- `current_thread_id()`
abbrev pub current_thread : Caller → Text
current_thread c = elim c.request_thread [
  | none ↦ c.environment_thread
  | some t ↦ if nonempty t then t else c.environment_thread
]

abbrev pub only_key : List Text → Text
only_key (l ∷ []) = l
only_key _ = []

-- `_caller_mailbox_label`
unfoldable pub caller_mailbox_label : Registry → Caller → Text
caller_mailbox_label d c =
    if nonempty (current_thread c)
    then only_key (
        keys
          (keep_items (λ l r. is_mailbox r.transport && r.thread_id == some (current_thread c)) d))
    else []

-- The label of the pane whose session id ends in the given text.
abbrev pub pane_label : Registry → Text → Option Text
pane_label d tail =
    elim (find_item
      (λ l r.
        nonempty (upper r.session_id)
        && (upper r.session_id == tail || ends_with (upper r.session_id) tail))
      d) [ none ↦ none | some (l, r) ↦ some l ]

abbrev environment_label : Registry → Caller → Text
environment_label d c =
    if nonempty c.label
    then c.label
    else if nonempty (upper c.session_tail)
    then elim (pane_label d (upper c.session_tail)) [ none ↦ caller_mailbox_label d c | some l ↦ l ]
    else caller_mailbox_label d c

abbrev pub owners : Registry → Text → List Text
owners d thread = keys (keep_items (λ l r. r.thread_id == some thread) d)

abbrev pub is_single : List Text → Bool
is_single (l ∷ []) = true
is_single _ = false

-- `_caller_label`
unfoldable pub caller_label : Registry → Caller → Text
unfolding caller_mailbox_label
caller_label d c = elim c.request_thread [
  | none ↦ environment_label d c
  | some t ↦
      if nonempty t
      then if is_single (owners d t) then only_key (owners d t) else caller_mailbox_label d c
      else environment_label d c
]

-- `re.fullmatch(r"[A-Za-z0-9][A-Za-z0-9_-]{0,100}", thread_id)` of `request_identity`
abbrev pub is_id_char : ℕ → Bool
is_id_char c =
    between b'A' b'Z' c || between b'a' b'z' c || between b'0' b'9' c || c == b'_' || c == b'-'

abbrev pub is_id_start : ℕ → Bool
is_id_start c = between b'A' b'Z' c || between b'a' b'z' c || between b'0' b'9' c

unfoldable pub is_thread_id : Text → Bool
unfolding nat_eq
is_thread_id [] = false
is_thread_id (c ∷ s) = is_id_start c && all is_id_char s && leb (length s) 100

-- The context variable during the request, or `none` for the `ValueError`.
unfoldable pub request_identity : Option Text → Option (Option Text)
unfolding is_thread_id
request_identity none = some none
request_identity (some t) = if is_thread_id t then some (some t) else none
