-- ===== src/Pane/Kept.antt =====
-- src/teammate_mcp/server.py: what is typed into a pane, and what is left in its inbox.
use teammate_mcp.Base.{
  if◌then◌else◌, is_some, option_eq, nat_eq, text_eq, ℕ, ◌+◌, ◌≤◌, ◌≡◌, Bool, true, false, none,
  some, List, [], ◌∷◌, ◌++◌,
}
use teammate_mcp.Base.Text.{Text}
use teammate_mcp.Base.Dict.{get}
use teammate_mcp.Mailbox.{Attempt, Message, Mode, Home, box}
use teammate_mcp.Queue.{Queue}
use teammate_mcp.Ask.{Call}
use teammate_mcp.Pane.{
  format_peer_message, Key, inject, Typing, settle_compose, clear_count, enter_keys, paste_keys,
  restore_keys, pane_state, Typed, lease_until,
}

abbrev is_inject : Key → Bool
is_inject (inject n body) = true
is_inject _ = false

-- How often a body is typed.
abbrev pub injections : List Key → ℕ
injections [] = 0
injections (k ∷ ks) = (if is_inject k then 1 else 0) + injections ks

-- The message stands in the label's inbox.
abbrev pub is_pending : Home → Text → Text → Bool
is_pending h label job_id = is_some (get (box h label).inbox job_id)

-- The text in the compose box when two snapshots agreed.
abbrev pub user_text : Typing → Text
user_text t = (settle_compose t.snapshots (t.snapshots 0) 1 t.patience).0

-- The keys of a delivery: the end of a paste if it could be sent, the body once, with as many
-- backspaces as clear the text, line ends, and in the end, if it could be sent, that text.
abbrev pub IsTypedOver : Text → Typing → Message → List Key → Type 0
IsTypedOver saved t m keys =
    (n : ℕ) × (keys
      ≡ paste_keys t
        ++ (inject (clear_count saved) (format_peer_message t.spool m)
            ∷ (enter_keys n ++ restore_keys t saved)))

abbrev pub IsTypedOnce : Typing → Message → List Key → Type 0
IsTypedOnce t m keys = IsTypedOver (user_text t) t m keys

dispatched : Message → Message
dispatched m = record m { pane_delivery = some (pane_state Attempt.dispatching none) }

module _ (t : Typing) (label : Text) where
  -- What the locked part leaves of a message that was pending before it.
  pub record IsTyped (m : Message) (r : Typed) : Type 0 where
    pub once : injections r.keys ≤ 1
    pub typed : r.delivered ≡ true → IsTypedOnce t m r.keys
    pub kept : r.delivered ≡ false → is_pending r.home label m.job_id ≡ true
    pub same_job : r.message.job_id ≡ m.job_id
    pub same_body : r.message.body ≡ m.body

  abbrev leased : Message → Message
  leased m = record m { delivery_lease = some (lease_until t.pid (t.locked_at + 120000)) }

  -- Other processes leave a message of the label pending.
  abbrev pub IsKeeping : (Home → Home) → Text → Type 0
  IsKeeping f job_id =
      (h : Home) → is_pending h label job_id ≡ true → is_pending (f h) label job_id ≡ true

  -- The message as the mailbox is left with it.
  abbrev pub IsLeft : Message → Home → Type 0
  IsLeft m h =
      (latest : Message) × (get (box h label).inbox m.job_id ≡ some latest)
      × (latest.body ≡ m.body)
      × (latest.delivery_mode ≡ some Mode.mailbox)
      × (latest.delivery_lease ≡ none)

  abbrev mailboxed : Message → Message
  mailboxed m = record m { delivery_lease = none; delivery_mode = some Mode.mailbox }

  abbrev sending : Call → Message → Message
  sending c m = record m {
    delivery_mode = some Mode.injecting;
    delivery_lease = some (lease_until t.pid (c.now + 120000));
  }
