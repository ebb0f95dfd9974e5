-- ===== src/Channel/Handshake.antt =====
-- src/teammate_mcp/claude_channel.py: the state of a channel and its connection.
use teammate_mcp.Base.{
  if◌then◌else◌, Bool-cases, Option-cases, ◌==◌, option_eq, nat_eq, text_eq, ℕ, ◌≡◌, refl, ◌↔◌, inl,
  inr, true, false, ◌&&◌, some, arith,
}
use teammate_mcp.Base.Text.{Text}
use teammate_mcp.Base.Dict.{get, get-put}
use teammate_mcp.Registry.{Registry, Rec, ChannelState, ready}
use teammate_mcp.Channel.{Pump, is_current, channel_of, is_other, set_state, confirm}

-- A state is written only into the record of the pump's label, and only if no other connection
-- holds the channel: a newer connection's state is never overwritten by an older pump.
pub set_state_effect :
    (p : Pump) (state : ChannelState) (pid now : ℕ) (d : Registry) (j : Text)
    → ((set_state p state pid now d).0 ≡ false → (set_state p state pid now d).1 ≡ d)
      × ((set_state p state pid now d).0 ≡ true
          → (r : Rec) × (get d p.label ≡ some r)
            × (is_other p r.channel ≡ false)
            × (get (set_state p state pid now d).1 j ≡ (
                if p.label == j
                then some (record r { channel = some (channel_of p state pid now) })
                else get d j)))
unfolding set_state
set_state_effect p state pid now d j = elim (Option-cases (get d p.label)) [
  | inl e ↦ (λ h. ground (arith, e), λ h. absurd (ground (arith, e, h)))
  | inr (r, e) ↦ (
    λ h. ground (arith, e, h),
    λ h. (
      r,
      e,
      ground (arith, e, h),
      ground (
        arith,
        e,
        h,
        get-put d p.label j (record r { channel = some (channel_of p state pid now) }),
      ),
    ),
  )
]

current_record :
    (p : Pump) (d : Registry)
    → is_current p d ≡ true
    → (r : Rec) × (get d p.label ≡ some r) × (is_other p r.channel ≡ false)
unfolding is_current
current_record p d h = elim (Option-cases (get d p.label)) [
  | inl e ↦ absurd (ground (arith, e, h))
  | inr (r, e) ↦ elim (Option-cases r.channel) [
    | inl f ↦ absurd (ground (arith, e, f, h))
    | inr (c, f) ↦ (r, e, ground (arith, e, f, h))
  ]
]

set_state_current :
    (p : Pump) (state : ChannelState) (pid now : ℕ) (d : Registry)
    → is_current p d ≡ true
    → (r : Rec) × (get (set_state p state pid now d).1 p.label ≡ some r)
      × (r.channel ≡ some (channel_of p state pid now))
unfolding set_state
set_state_current p state pid now d h =
    let (r, e, o) = current_record p d h in
    (
      record r { channel = some (channel_of p state pid now) },
      ground (
        arith,
        e,
        o,
        get-put d p.label p.label (record r { channel = some (channel_of p state pid now) }),
      ),
      refl,
    )

-- A handshake is confirmed exactly for the pump's own nonce while its connection is the label's.
-- Then the pump is ready and the registry says so; otherwise nothing changes.
pub confirm_iff :
    (p : Pump) (nonce : Text) (pid now : ℕ) (d : Registry)
    → let c = confirm p nonce pid now d in
      ((c.0 ≡ true) ↔ ((nonce ≡ p.nonce) × (is_current p d ≡ true)))
      × (c.0 ≡ true
          → (c.1.is_ready ≡ true)
            × ((r : Rec) × (get c.2 p.label ≡ some r)
                × (r.channel ≡ some (channel_of p ready pid now))))
      × (c.0 ≡ false → (c.1 ≡ p) × (c.2 ≡ d))
unfolding confirm
confirm_iff p nonce pid now d = elim (Bool-cases (nonce == p.nonce && is_current p d)) [
  | inl b ↦
      let (r, at, same) = set_state_current p ready pid now d (ground (arith, b)) in
      (
        (λ h. ground (arith, b), λ h. ground (arith, b)),
        λ h. (ground (arith, b), (r, ground (arith, b, at), same)),
        λ h. absurd (ground (arith, b, h)),
      )
  | inr b ↦ (
    (λ h. absurd (ground (arith, b, h)), λ h. absurd (ground (arith, b, h))),
    λ h. absurd (ground (arith, b, h)),
    λ h. ground (arith, b),
  )
]
