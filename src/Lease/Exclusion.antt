-- ===== src/Lease/Exclusion.antt =====
-- src/teammate_mcp/pane_delivery.py: the claims of the deliverers of one message.
use teammate_mcp.Base.{
  Bool-cases, Option-cases, is_some, option_eq, nat_eq, text_eq, ℕ, ◌+◌, ◌≤◌, ◌<◌, ◌≡◌, refl, ◌≢◌,
  ◌↔◌, ◌⊎◌, inl, inr, true, false, Option, none, some, arith,
}
use teammate_mcp.Mailbox.{Mode, mailbox, injecting, claude_channel, Lease, Message}
use teammate_mcp.Lease.{
  Probe, alive, denied, missing, is_running, is_held, is_native, lease_active, eligible_for_watch,
  available_to_hook,
}

-- A lease is active exactly while it has not expired and its process is not known to be gone.
pub lease_active_iff :
    (probe : ℕ → Probe) (m : Message) (now : ℕ)
    → (lease_active probe m now ≡ true) ↔ (
        (l : Lease) × (m.delivery_lease ≡ some l)
        × (now < l.expires_at)
        × (0 < l.pid)
        × (probe l.pid ≢ missing))
unfolding lease_active
lease_active_iff probe m now = elim (Option-cases m.delivery_lease) [
  | inl e ↦ (λ h. ground (arith, e), λ h. ground (arith, e, h.1))
  | inr (l, e) ↦ (
    λ h. (l, e, ground (arith, e), ground (arith, e), λ p. ground (arith, e, p)),
    λ h. held l h.0 e h.1 h.2 h.3 h.4,
  )
]
  where
    held :
        (l k : Lease)
        → m.delivery_lease ≡ some l
        → m.delivery_lease ≡ some k
        → now < k.expires_at
        → 0 < k.pid
        → probe k.pid ≢ missing
        → lease_active probe m now ≡ true
    held l k e f a b c = ground (arith, f, running (probe k.pid) c)
      where
        running : (p : Probe) → p ≢ missing → is_running p ≡ true
        running alive c = refl
        running denied c = refl
        running missing c = absurd (c refl)

-- An active lease stays active at every earlier time: only the clock and the process end it.
pub lease_active_earlier :
    (probe : ℕ → Probe) (m : Message) (now then' : ℕ)
    → now ≤ then'
    → lease_active probe m then' ≡ true
    → lease_active probe m now ≡ true
unfolding lease_active
lease_active_earlier probe m now then' h a = ground arith

-- A hook takes a message exactly if it is not the native channel's, no lease is active, and no
-- injection is under way or in doubt.
pub available_to_hook_iff :
    (probe : ℕ → Probe) (m : Message) (now : ℕ)
    → (available_to_hook probe m now ≡ true) ↔ (
        (m.delivery_mode ≢ some claude_channel)
        × (lease_active probe m now ≡ false)
        × (is_held m.pane_delivery ≡ false))
unfolding available_to_hook
available_to_hook_iff probe m now = (
  λ h. (λ e. ground (arith, e), ground arith, ground arith),
  λ h. ground (arith, native m.delivery_mode h.0),
)
  where
    native : (o : Option Mode) → o ≢ some claude_channel → is_native o ≡ false
    native none n = refl
    native (some mailbox) n = refl
    native (some injecting) n = refl
    native (some claude_channel) n = absurd (n refl)

-- The watchdog takes a message exactly if a hook may, and an old sender's 15 seconds have passed.
pub eligible_for_watch_iff :
    (probe : ℕ → Probe) (m : Message) (now : ℕ)
    → (eligible_for_watch probe m now ≡ true) ↔ (
        (available_to_hook probe m now ≡ true)
        × ((is_some m.delivery_mode ≡ true)
            ⊎ (m.created_at ≡ none)
            ⊎ ((t : ℕ) × (m.created_at ≡ some t) × (t + 15000 ≤ now))))
unfolding eligible_for_watch available_to_hook
eligible_for_watch_iff probe m now = elim (Option-cases m.created_at) [
  | inl e ↦ (λ h. (ground arith, inr (inl e)), λ h. ground (arith, e, h.0))
  | inr (t, e) ↦ (
    λ h. (
      ground arith,
      elim (Bool-cases (is_some m.delivery_mode)) [
        | inl y ↦ inl y
        | inr n ↦ inr (inr (t, e, ground (arith, e, n)))
      ],
    ),
    λ h. ground (arith, e, h.0, h.1),
  )
]
