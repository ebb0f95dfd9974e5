-- ===== src/Channel/Once.antt =====
-- src/teammate_mcp/claude_channel.py: how often a message is notified.
use teammate_mcp.Base.{
  if◌then◌else◌, Bool-cases, Option-cases, option_eq, nat_eq, text_eq, All, ℕ, ◌+◌, ◌≤◌, ◌≡◌, refl,
  sym, subst, inl, inr, Bool, true, false, ◌||◌, Option, none, some, List, [], ◌∷◌, arith,
}
use teammate_mcp.Base.Text.{Text, str}
use teammate_mcp.Base.Dict.{get}
use teammate_mcp.Mailbox.{Message, Mode, Delivery, dispatching, sent, uncertain, failed, Home, box}
use teammate_mcp.Mailbox.Receipts.{inbox-write_inbox}
use teammate_mcp.Lease.{Probe, lease_active, is_held}
use teammate_mcp.Channel.{
  Pump, Visit, update_pending, is_tried, differs, delivery_of, Scanned, skip, notify, session_of,
  scan_message,
}

-- The message is gone from the inbox, or its channel delivery was tried.
abbrev spent_message : Option Message → Bool
spent_message none = true
spent_message (some m) = is_tried m.channel_delivery

abbrev pub is_spent : Home → Text → Text → Bool
is_spent h label job_id = spent_message (get (box h label).inbox job_id)

-- The file is named after its job.
abbrev pub IsKeyed : Home → Text → Text → Type 0
IsKeyed h label job_id = (m : Message) → get (box h label).inbox job_id ≡ some m → m.job_id ≡ job_id

module _ (probe : ℕ → Probe) (now : ℕ) (free : Bool) (h : Home) (label job_id : Text)
    (d : Delivery) where
  abbrev updated : Bool × Home
  updated = update_pending probe now free h label job_id d

  marked : Message → Message
  marked m = record m { delivery_mode = some Mode.claude_channel; channel_delivery = some d }

  -- An update leaves no message less tried than before, and a successful one marks it.
  update_pending_effect :
      IsKeyed h label job_id
      → is_tried (some d) ≡ true
      → IsKeyed updated.1 label job_id
        × (is_spent h label job_id ≡ true → is_spent updated.1 label job_id ≡ true)
        × (updated.0 ≡ true → is_spent updated.1 label job_id ≡ true)
  unfolding update_pending marked
  update_pending_effect k t = elim (Option-cases (get (box h label).inbox job_id)) [
    | inl e ↦ (λ m' f. ground (arith, e, f), λ s. ground (arith, e), λ s. ground (arith, e))
    | inr (m, e) ↦
        let w = inbox-write_inbox h label job_id (marked m) in
        (
          λ m' f. ground (arith, e, f, k m e, w),
          λ s. ground (arith, e, s, t, k m e, w),
          λ s. ground (arith, e, s, t, k m e, w),
        )
  ]

-- What the other processes do keeps the file's name and never makes a tried message untried.
abbrev pub IsFairStep : (Home → Home) → Text → Text → Type 0
IsFairStep f label job_id =
    (h : Home)
    → (IsKeyed h label job_id → IsKeyed (f h) label job_id)
      × (is_spent h label job_id ≡ true → is_spent (f h) label job_id ≡ true)

pub record IsFair (v : Visit) (label job_id : Text) : Type 0 where
  pub update : IsFairStep v.before_update label job_id
  pub notify_ : IsFairStep v.before_notify label job_id
  pub after : IsFairStep v.after_notify label job_id

module _ (p : Pump) (probe : ℕ → Probe) (v : Visit) (job_id : Text)
    (fair : IsFair v p.label job_id) where
  -- The notification's part: whatever happened, the name is kept; if it was tried, it is spent.
  notify_effect :
      (u : Bool × Home)
      → IsKeyed u.1 p.label job_id
      → (u.0 ≡ true → is_spent u.1 p.label job_id ≡ true)
      → let r = notify p probe v job_id u in
        IsKeyed r.home p.label job_id
        × (r.tried ≡ true → is_spent r.home p.label job_id ≡ true)
        × (is_spent u.1 p.label job_id ≡ true → is_spent r.home p.label job_id ≡ true)
  notify_effect (false, h) k s = (k, λ e. cc, λ e. e)
  notify_effect (true, h) k s =
      let (k1, s1) = fair.notify_ h in
      let (k2, s2) = fair.after (v.before_notify h) in
      let last =
        update_pending_effect probe v.later v.second (v.after_notify (v.before_notify h)) p.label
          job_id (delivery_of p (if v.notified then sent else uncertain)) (k2 (k1 k))
          (ground arith) in
      (last.0, λ e. last.1 (s2 (s1 (s refl))), λ e. last.1 (s2 (s1 e)))

  -- A pass keeps the file's name; a message that it tried is spent; one that was spent is skipped
  -- and stays spent.
  abbrev pub Effect : Home → Scanned → Type 0
  Effect h r =
      IsKeyed r.home p.label job_id
      × (r.tried ≡ true → is_spent r.home p.label job_id ≡ true)
      × (is_spent h p.label job_id ≡ true
          → (r.tried ≡ false) × (is_spent r.home p.label job_id ≡ true))

  skip-Effect : (h : Home) → IsKeyed h p.label job_id → Effect h (skip h)
  skip-Effect h k = (k, λ t. cc, λ s. (refl, s))

  abbrev skips : Home → Message → Bool
  skips h m =
      lease_active probe m v.now
      || is_tried m.channel_delivery
      || is_held m.pane_delivery
      || differs m.recipient_session_id (some (session_of h p.label).session_id)

  abbrev changed : Home → Message → Bool
  changed h m = differs m.recipient_claude_owner (session_of h p.label).claude_owner

  abbrev refusal : Delivery
  refusal = record {
    state = failed;
    connection_id = none;
    error = some (str "channel recipient owner changed");
  }

  abbrev first_update : Delivery → Home → Bool × Home
  first_update d h = update_pending probe v.now v.first (v.before_update h) p.label job_id d

  unspent-Effect :
      (h : Home) (m : Message)
      → IsKeyed h p.label job_id
      → get (box h p.label).inbox job_id ≡ some m
      → skips h m ≡ false
      → Effect h (
          if changed h m
          then skip (first_update refusal h).1
          else notify p probe v job_id (first_update (delivery_of p dispatching) h))
  unspent-Effect h m k e n = elim (Bool-cases (changed h m)) [
    | inl c ↦
        let u =
          update_pending_effect probe v.now v.first (v.before_update h) p.label job_id refusal
            ((fair.update h).0 k) refl in
        rw c (u.0, λ t. cc, λ s. absurd (ground (arith, e, n, s)))
    | inr c ↦
        let u =
          update_pending_effect probe v.now v.first (v.before_update h) p.label job_id
            (delivery_of p dispatching) ((fair.update h).0 k) refl in
        let r = notify_effect (first_update (delivery_of p dispatching) h) u.0 u.2 in
        rw c (r.0, r.1, λ s. absurd (ground (arith, e, n, s)))
  ]

  scan_message-Effect :
      (h : Home) → IsKeyed h p.label job_id → Effect h (scan_message p probe v h job_id)
  unfolding scan_message
  scan_message-Effect h k = elim (Option-cases (get (box h p.label).inbox job_id)) [
    | inl e ↦
        let q : scan_message p probe v h job_id ≡ skip h = ground (arith, e) in
        rw q (skip-Effect h k)
    | inr (m, e) ↦ elim (Bool-cases (skips h m)) [
      | inl s ↦
          let q : scan_message p probe v h job_id ≡ skip h = ground (arith, e, s) in
          rw q (skip-Effect h k)
      | inr n ↦
          let q : scan_message p probe v h job_id ≡ (
              if changed h m
              then skip (first_update refusal h).1
              else notify p probe v job_id (first_update (delivery_of p dispatching) h)) =
            ground (arith, e, n) in
          subst (Effect h) (sym q) (unspent-Effect h m k e n)
    ]
  ]

-- Passes over one message, and what others do after each: how many notifications were tried.
unfoldable pub visit_all :
    Pump → (ℕ → Probe) → Text → Home → List (Visit × (Home → Home)) → Home × ℕ
visit_all p probe job_id h [] = (h, 0)
visit_all p probe job_id h ((v, others) ∷ rest) =
    let r = scan_message p probe v h job_id in
    let (h', n) = visit_all p probe job_id (others r.home) rest in
    (h', (if r.tried then 1 else 0) + n)

abbrev pub AllFair : Text → Text → List (Visit × (Home → Home)) → Type 0
AllFair label job_id = All (λ vo. IsFair vo.0 label job_id × IsFairStep vo.1 label job_id)

visit_all-spent :
    (p : Pump) (probe : ℕ → Probe) (job_id : Text) (h : Home) (vs : List (Visit × (Home → Home)))
    → AllFair p.label job_id vs
    → IsKeyed h p.label job_id
    → is_spent h p.label job_id ≡ true
    → (visit_all p probe job_id h vs).1 ≡ 0
unfolding visit_all
visit_all-spent p probe job_id h [] f k s = refl
visit_all-spent p probe job_id h ((v, others) ∷ rest) ((fv, fo), fs) k s =
    let (k1, _, still) = scan_message-Effect p probe v job_id fv h k in
    let (k2, s2) = fo (scan_message p probe v h job_id).home in
    rw (still s).0 (
      omega (
        arith,
        visit_all-spent p probe job_id (others (scan_message p probe v h job_id).home) rest fs
            (k2 k1) (s2 (still s).1),
      ))

-- However often the pump passes over a message, with whatever locks, failures and changes by
-- others that never make a tried message untried, it tries to notify the session of it at most
-- once.
pub visit_all_once :
    (p : Pump) (probe : ℕ → Probe) (job_id : Text) (h : Home) (vs : List (Visit × (Home → Home)))
    → AllFair p.label job_id vs
    → IsKeyed h p.label job_id
    → (visit_all p probe job_id h vs).1 ≤ 1
unfolding visit_all
visit_all_once p probe job_id h [] f k = omega arith
visit_all_once p probe job_id h ((v, others) ∷ rest) ((fv, fo), fs) k =
    let r = scan_message p probe v h job_id in
    let (k1, tried, _) = scan_message-Effect p probe v job_id fv h k in
    let (k2, s2) = fo r.home in
    elim (Bool-cases r.tried) [
      | inl t ↦ rw t (
          omega
            (arith, visit_all-spent p probe job_id (others r.home) rest fs (k2 k1) (s2 (tried t))))
      | inr n ↦ rw n (omega (arith, visit_all_once p probe job_id (others r.home) rest fs (k2 k1)))
    ]
