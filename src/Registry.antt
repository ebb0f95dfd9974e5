-- ===== src/Registry.antt =====
-- The registry of labels, src/teammate_mcp/registry.py. A record is the JSON object stored under
-- a label, with the keys that the program reads. A text key that is absent is the empty text
-- where the code reads it by `rec.get(key) or ""`, and `none` elsewhere. The file lock makes each
-- operation one step on the dict. Times are milliseconds.
use native.Mathlib.Decide.{ℕ_discrete}
pub mod Update
pub mod Mailboxes
pub mod Consistent
use teammate_mcp.Base.{
  ℕ, ◌+◌, Bool, true, false, not, ◌&&◌, ◌||◌, Option, none, some, List, [], ◌∷◌, ltb, is_some,
  contains, ◌==◌, Eq, option_eq, nat_eq, text_eq, if◌then◌else◌,
}
use teammate_mcp.Base.Text.{Text, str, upper, strip}
use teammate_mcp.Base.Dict.{Dict, get, put, keep_items, find_item}

pub data Transport : Type 0 where
  mailbox claude_channel : Transport

pub data Policy : Type 0 where
  idle immediate : Policy

pub data ChannelState : Type 0 where
  awaiting_handshake ready closed : ChannelState

pub record Channel : Type 0 where
  pub connection_id : Text
  pub state : ChannelState
  pub pid : ℕ
  pub last_seen : ℕ

-- `registered_at` is 0 where the key is absent.
pub record Rec : Type 0 where
  pub label : Text
  pub session_id : Text
  pub pid : ℕ
  pub job : Text
  pub cwd : Option Text
  pub transport : Option Transport
  pub thread_id : Option Text
  pub claude_owner : Option Text
  pub channel : Option Channel
  pub auto_delivery : Option Bool
  pub delivery_policy : Option Policy
  pub socket_path : Option Text
  pub registered_at : ℕ
  pub setup_error : Option Text

rec_dec : Discrete Rec
unfolding ℕ_discrete
rec_dec = hlevel ℕ_discrete

-- Python's `==` on the stored objects.
instance unfoldable pub rec_eq : Eq Rec
unfolding rec_dec
rec_eq = record { dec = rec_dec }

-- The object `{}`.
abbrev pub no_rec : Rec
no_rec = record {
  label = [];
  session_id = [];
  pid = 0;
  job = [];
  cwd = none;
  transport = none;
  thread_id = none;
  claude_owner = none;
  channel = none;
  auto_delivery = none;
  delivery_policy = none;
  socket_path = none;
  registered_at = 0;
  setup_error = none;
}

abbrev pub Registry : Type 0
Registry = Dict Rec

-- `extra`: each key of a record that it may set, `none` where it does not. Where a record's key is
-- an `Option`, `some none` is a null.
pub record Extra : Type 0 where
  pub label : Option Text
  pub session_id : Option Text
  pub pid : Option ℕ
  pub job : Option Text
  pub cwd : Option (Option Text)
  pub transport : Option (Option Transport)
  pub thread_id : Option (Option Text)
  pub claude_owner : Option (Option Text)
  pub channel : Option (Option Channel)
  pub auto_delivery : Option (Option Bool)
  pub delivery_policy : Option (Option Policy)
  pub socket_path : Option (Option Text)
  pub registered_at : Option ℕ
  pub setup_error : Option (Option Text)

abbrev pub no_extra : Extra
no_extra = record {
  label = none;
  session_id = none;
  pid = none;
  job = none;
  cwd = none;
  transport = none;
  thread_id = none;
  claude_owner = none;
  channel = none;
  auto_delivery = none;
  delivery_policy = none;
  socket_path = none;
  registered_at = none;
  setup_error = none;
}

pub data RegistryError : Type 0 where
  belongs_to_mailbox belongs_to_channel belongs_to_session : RegistryError
  thread_registered_as : Text → RegistryError

pub data Outcome {ℓ} (A : Type ℓ) : Type ℓ where
  ok : A → Outcome A
  err : RegistryError → Outcome A

-- Python's truth of a text, and of a set.
abbrev pub nonempty {ℓ} : {A : Type ℓ} → List A → Bool
nonempty [] = false
nonempty (c ∷ s) = true

abbrev pub is_mailbox : Option Transport → Bool
is_mailbox (some mailbox) = true
is_mailbox _ = false

abbrev pub is_channel : Option Transport → Bool
is_channel (some claude_channel) = true
is_channel _ = false

-- `{**d, **extra}` at one key, and `extra.get(key)`.
abbrev pub or_else {ℓ} : {A : Type ℓ} → Option A → A → A
or_else none d = d
or_else (some a) d = a

abbrev pub given {ℓ} : {A : Type ℓ} → Option (Option A) → Option A
given none = none
given (some a) = a

-- `data.get(label, {})`
abbrev pub rec_or_empty : Option Rec → Rec
rec_or_empty none = no_rec
rec_or_empty (some r) = r

-- `bool(extra.get("claude_owner") and previous.get("claude_owner") == extra["claude_owner"])`
abbrev pub same_owner : Option Text → Option Text → Bool
same_owner none previous = false
same_owner (some owner) previous = nonempty owner && previous == some owner

-- The refusals of `register`.
unfoldable pub register_guard : Rec → Text → Extra → Option RegistryError
unfolding text_eq
register_guard previous session_id extra =
    if is_mailbox previous.transport
    then some belongs_to_mailbox
    else if (is_channel previous.transport || is_some previous.channel)
        && not (nonempty session_id && previous.session_id == session_id)
        && not (same_owner (given extra.claude_owner) previous.claude_owner)
    then some belongs_to_channel
    else none

-- Two non-empty session ids that name one pane.
abbrev pub same_pane : Text → Text → Bool
same_pane a b = nonempty a && upper b == upper a

-- The other labels of the pane are dropped.
unfoldable pub drop_collisions : Registry → Text → Text → Registry
drop_collisions data' label session_id =
    keep_items (λ l r. l == label || not (same_pane session_id r.session_id)) data'

-- The record that `register` writes: the old one's keys where it is the same pane, then the
-- arguments, then `extra`.
unfoldable pub new_rec : Rec → Text → Text → ℕ → Text → Option Text → Extra → ℕ → Rec
new_rec previous label session_id pid job cwd extra now =
    let kept = if same_pane session_id previous.session_id then previous else no_rec in
    record {
      label = or_else extra.label label;
      session_id = or_else extra.session_id session_id;
      pid = or_else extra.pid pid;
      job = or_else extra.job job;
      cwd = or_else extra.cwd cwd;
      transport = or_else extra.transport kept.transport;
      thread_id = or_else extra.thread_id kept.thread_id;
      claude_owner = or_else extra.claude_owner kept.claude_owner;
      channel = or_else extra.channel kept.channel;
      auto_delivery = or_else extra.auto_delivery kept.auto_delivery;
      delivery_policy = or_else extra.delivery_policy kept.delivery_policy;
      socket_path = or_else extra.socket_path kept.socket_path;
      registered_at = or_else extra.registered_at now;
      setup_error = or_else extra.setup_error kept.setup_error;
    }

unfoldable pub register :
    Registry → Text → Text → ℕ → Text → Option Text → Extra → Bool → ℕ → Outcome Registry
register data' label session_id pid job cwd extra dedupe now =
    elim (register_guard (rec_or_empty (get data' label)) session_id extra) [
      | some e ↦ err e
      | none ↦
          let kept = if dedupe then drop_collisions data' label session_id else data' in
          let previous = rec_or_empty (get kept label) in
          ok (put kept label (new_rec previous label session_id pid job cwd extra now))
    ]

-- Another label that already holds the thread.
abbrev pub holds_thread : Text → Text → Text → Rec → Bool
holds_thread label thread_id l r =
    not (l == label) && is_mailbox r.transport && r.thread_id == some thread_id

-- The record that `register_mailbox` writes over the old one.
unfoldable pub mailbox_rec : Rec → Text → Text → Text → ℕ → Rec
mailbox_rec existing label thread_id cwd now = record existing {
  label = label;
  session_id = [];
  transport = some mailbox;
  thread_id = some thread_id;
  job = str "codex";
  cwd = some cwd;
  registered_at = now;
}

abbrev pub foreign : Option Rec → Text → Bool
foreign none thread_id = false
foreign (some r) thread_id = not (is_mailbox r.transport) || not (r.thread_id == some thread_id)

unfoldable pub register_mailbox : Registry → Text → Text → Text → ℕ → Outcome Registry
register_mailbox data' label thread_id cwd now =
    elim (find_item (holds_thread label thread_id) data') [
      | some (other, r) ↦ err (thread_registered_as other)
      | none ↦
          if foreign (get data' label) thread_id
          then err belongs_to_session
          else ok (
              put data' label
                (mailbox_rec (rec_or_empty (get data' label)) label thread_id cwd now))
    ]

-- What `prune_dead` removes: a pane that is not open, registered `grace` ago or earlier. An age
-- counts from `registered_at`, and is infinite where that is 0.
unfoldable pub is_dead : List Text → ℕ → ℕ → Rec → Bool
is_dead alive now grace r =
    let sid = upper (strip r.session_id) in
    nonempty sid
    && not (contains alive sid)
    && (r.registered_at == 0 || not (ltb now (r.registered_at + grace)))

unfoldable pub prune_registry : List Text → ℕ → ℕ → Registry → Registry
prune_registry [] now grace data' = data'
prune_registry (s ∷ alive) now grace data' =
    keep_items (λ l r. not (is_dead (s ∷ alive) now grace r)) data'
