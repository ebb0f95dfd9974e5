-- ===== src/Channel.antt =====
-- `ChannelPump` of src/teammate_mcp/claude_channel.py: native notifications to a Claude session.
-- The client that receives a notification is not part of this program: a visit says whether the
-- send returned. Its fields also give the clock, the locks' answers, and what other processes do
-- between the reads and writes of the pump. Times are milliseconds.
pub mod Handshake
pub mod Once
pub mod Address
use teammate_mcp.Base.{
  if◌then◌else◌, Eq, ◌==◌, option_eq, nat_eq, text_eq, first, ℕ, ◌-◌, ◌/◌, Bool, true, false, not,
  ◌&&◌, ◌||◌, Option, none, some, List, [], ◌∷◌, arith,
}
use teammate_mcp.Base.Text.{Text, str, between}
use teammate_mcp.Base.Dict.{get, put, keys}
use teammate_mcp.Base.Order.{sorted}
use teammate_mcp.Registry.{
  Registry, Rec, Channel, ChannelState, awaiting_handshake, ready, closed, rec_or_empty, nonempty,
}
use teammate_mcp.Mailbox.{
  Mode, Delivery, Attempt, dispatching, sent, uncertain, failed, Home, box, write_inbox,
}
use teammate_mcp.Lease.{Probe, lease_active, is_held}

pub record Pump : Type 0 where
  pub label : Text
  pub connection_id : Text
  pub nonce : Text
  pub is_ready : Bool

abbrev pub connection_of : Option Channel → Option Text
connection_of none = none
connection_of (some c) = some c.connection_id

-- `_current`
unfoldable pub is_current : Pump → Registry → Bool
is_current p d = connection_of (rec_or_empty (get d p.label)).channel == some p.connection_id

abbrev pub channel_of : Pump → ChannelState → ℕ → ℕ → Channel
channel_of p state pid now = record {
  connection_id = p.connection_id;
  state = state;
  pid = pid;
  last_seen = now;
}

-- `current.get("connection_id") not in (None, self.connection_id)`
abbrev pub is_other : Pump → Option Channel → Bool
is_other p none = false
is_other p (some c) = not (c.connection_id == p.connection_id)

-- `_state`
unfoldable pub set_state : Pump → ChannelState → ℕ → ℕ → Registry → Bool × Registry
set_state p state pid now d = elim (get d p.label) [
  | none ↦ (false, d)
  | some r ↦
      if is_other p r.channel
      then (false, d)
      else (true, put d p.label (record r { channel = some (channel_of p state pid now) }))
]

-- `connect`, up to the handshake event; `none` is its `ValueError`.
unfoldable pub connect : Pump → ℕ → ℕ → Registry → Option Registry
connect p pid now d = elim (get d p.label) [
  | none ↦ none
  | some r ↦
      some (put d p.label (record r { channel = some (channel_of p awaiting_handshake pid now) }))
]

-- `confirm`: whether the handshake holds, the pump and the registry after it.
unfoldable pub confirm : Pump → Text → ℕ → ℕ → Registry → Bool × Pump × Registry
unfolding is_current set_state
confirm p nonce pid now d =
    if not (nonce == p.nonce) || not (is_current p d)
    then (false, p, d)
    else (true, record p { is_ready = true }, (set_state p ready pid now d).1)

unfoldable pub close : Pump → ℕ → ℕ → Registry → Pump × Registry
unfolding set_state
close p pid now d = (record p { is_ready = false }, (set_state p closed pid now d).1)

-- One pass of the loop body over one message. `first` and `second` tell whether the send lock and
-- the job's lock were free for the two updates.
pub record Visit : Type 0 where
  pub now : ℕ
  pub later : ℕ
  pub first : Bool
  pub second : Bool
  pub notified : Bool
  pub before_update : Home → Home
  pub before_notify : Home → Home
  pub after_notify : Home → Home

abbrev pub is_dispatch : Delivery → Bool
is_dispatch d = elim d.state [ dispatching ↦ true | _ ↦ false ]

-- `_update_pending`
unfoldable pub update_pending : (ℕ → Probe) → ℕ → Bool → Home → Text → Text → Delivery → Bool × Home
update_pending probe now free h label job_id d = elim (get (box h label).inbox job_id) [
  | none ↦ (false, h)
  | some m ↦ if not free || is_dispatch d && lease_active probe m now then (false, h) else (
    true,
    write_inbox h label
        (record m { delivery_mode = some Mode.claude_channel; channel_delivery = some d }),
  )
]

-- A delivery was tried before.
abbrev pub is_tried : Option Delivery → Bool
is_tried none = false
is_tried (some d) = elim d.state [
  | dispatching ↦ true
  | sent ↦ true
  | uncertain ↦ true
  | failed ↦ true
  | _ ↦ false
]

-- `owner and owner != value`
abbrev pub differs : Option Text → Option Text → Bool
differs none value = false
differs (some owner) value = nonempty owner && not (some owner == value)

abbrev pub delivery_of : Pump → Attempt → Delivery
delivery_of p state = record { state = state; connection_id = some p.connection_id; error = none }

-- What a pass leaves: the disk, and whether the notification was sent or tried.
pub record Scanned : Type 0 where
  pub home : Home
  pub tried : Bool
  pub raised : Bool

abbrev pub skip : Home → Scanned
skip h = record { home = h; tried = false; raised = false }

-- The notification and the update after it; a failed send is in doubt, and raises.
abbrev pub notify : Pump → (ℕ → Probe) → Visit → Text → Bool × Home → Scanned
notify p probe v job_id (false, h) = skip h
notify p probe v job_id (true, h) =
    let h' = v.after_notify (v.before_notify h) in
    let state = if v.notified then sent else uncertain in
    record {
      home = (update_pending probe v.later v.second h' p.label job_id (delivery_of p state)).1;
      tried = true;
      raised = not v.notified;
    }

abbrev pub session_of : Home → Text → Rec
session_of h label = rec_or_empty (get h.registry label)

unfoldable pub scan_message : Pump → (ℕ → Probe) → Visit → Home → Text → Scanned
scan_message p probe v h job_id = elim (get (box h p.label).inbox job_id) [
  | none ↦ skip h
  | some m ↦
      let h' = v.before_update h in
      if lease_active probe m v.now
      then skip h
      else if is_tried m.channel_delivery
      then skip h
      else if is_held m.pane_delivery
      then skip h
      else if differs m.recipient_session_id (some (session_of h p.label).session_id)
      then skip h
      else if differs m.recipient_claude_owner (session_of h p.label).claude_owner
      then skip
          (update_pending probe v.now v.first h' p.label job_id (record {
            state = failed;
            connection_id = none;
            error = some (str "channel recipient owner changed");
          })).1
      else notify p probe v job_id
          (update_pending probe v.now v.first h' p.label job_id (delivery_of p dispatching))
]

-- The loop over the inbox's files. It stops where the pump is no longer the label's, and where a
-- send raised.
abbrev pub scan_files : Pump → (ℕ → Probe) → (Text → Visit) → Home → List Text → Home
scan_files p probe v h [] = h
scan_files p probe v h (job_id ∷ rest) =
    let r = scan_message p probe (v job_id) h job_id in
    let more = scan_files p probe v r.home rest in
    if not (is_current p h.registry) then h else if r.raised then r.home else more

unfoldable pub scan_once : Pump → (ℕ → Probe) → (Text → Visit) → Home → Home
unfolding sorted is_current
scan_once p probe v h =
    if not p.is_ready || not (is_current p h.registry)
    then h
    else scan_files p probe v h (sorted (keys (box h p.label).inbox))
