-- ===== src/Wake/Once.antt =====
-- src/teammate_mcp/watcher.py: how often the watchdog types a message.
use teammate_mcp.Base.{
  if◌then◌else◌, Bool-cases, Option-cases, is_some, ◌==◌, ==_iff, option_eq, nat_eq, text_eq, first,
  All, ℕ, ◌+◌, ◌≤◌, ◌≡◌, refl, sym, ap, ◌∙◌, subst, ◌⊎◌, inl, inr, Bool, true, false, not, ◌||◌,
  Option, none, some, List, [], ◌∷◌, arith,
}
use teammate_mcp.Base.Text.{Text, upper}
use teammate_mcp.Base.Dict.{keys, get, get-put, get-pop}
use teammate_mcp.Base.Order.{sorted}
use teammate_mcp.Registry.{Rec, rec_eq}
use teammate_mcp.Mailbox.{
  Message, Home, box, write_inbox, move_to_processed, save_processed_receipt, Terminal,
}
use teammate_mcp.Mailbox.Receipts.{inbox-write_inbox}
use teammate_mcp.Lease.{is_held, eligible_for_watch}
use teammate_mcp.Wake.{
  screen_user_is_typing, Waking, Woken, idle_wake, is_eligible, first_eligible, is_submitted,
  dispatch_record, uncertain_record, wake_failed, delivered_receipt, woken_by, type_pending,
  wake_message, wake_first, wake_pane,
}

-- The message is gone from the inbox, or it was typed, or it is being typed.
abbrev taken : Option Message → Bool
taken none = true
taken (some m) = is_held m.pane_delivery

abbrev pub is_taken : Home → Text → Text → Bool
is_taken h label j = taken (get (box h label).inbox j)

-- Each file of the label's inbox is named after its job.
abbrev pub IsNamed : Home → Text → Type 0
IsNamed h label = (j : Text) (m : Message) → get (box h label).inbox j ≡ some m → m.job_id ≡ j

-- From one disk to another, files keep their names, and what is taken stays taken.
pub record IsStep (label : Text) (h h' : Home) : Type 0 where
  pub named : IsNamed h label → IsNamed h' label
  pub stays : (j : Text) → is_taken h label j ≡ true → is_taken h' label j ≡ true

module _ (label : Text) where
  IsStep-self : (h : Home) → IsStep label h h
  IsStep-self h = record { named = λ n. n; stays = λ j t. t }

  IsStep-trans : (h h' h'' : Home) → IsStep label h h' → IsStep label h' h'' → IsStep label h h''
  IsStep-trans h h' h'' a b = record {
    named = λ n. b.named (a.named n);
    stays = λ j t. b.stays j (a.stays j t);
  }

  write_inbox-IsStep :
      (h : Home) (m : Message)
      → is_held m.pane_delivery ≡ true
      → IsStep label h (write_inbox h label m)
        × (is_taken (write_inbox h label m) label m.job_id ≡ true)
  write_inbox-IsStep h m t = (
    record {
      named = λ n j l e. ground (arith, e, n j l, inbox-write_inbox h label j m);
      stays = λ j s. ground (arith, s, t, inbox-write_inbox h label j m);
    },
    ground (arith, t, inbox-write_inbox h label m.job_id m),
  )

  inbox-move :
      (h h' : Home) (job_id j : Text) (new : Terminal)
      → move_to_processed h label job_id new ≡ some h'
      → get (box h' label).inbox j ≡ (if job_id == j then none else get (box h label).inbox j)
  unfolding move_to_processed save_processed_receipt
  inbox-move h h' job_id j new e = ground (
    arith,
    e,
    get-pop (box h label).inbox job_id j,
    get-put h.boxes label label (save_processed_receipt (box h label) job_id new),
  )

  move_to_processed-IsStep :
      (h h' : Home) (job_id : Text) (new : Terminal)
      → move_to_processed h label job_id new ≡ some h'
      → IsStep label h h' × (is_taken h' label job_id ≡ true)
  move_to_processed-IsStep h h' job_id new e = (
    record {
      named = λ n j m g. ground (arith, g, n j m, inbox-move h h' job_id j new e);
      stays = λ j s. ground (arith, s, inbox-move h h' job_id j new e);
    },
    ground (arith, inbox-move h h' job_id job_id new e),
  )

  -- The other processes.
  abbrev pub IsFair : Waking → Type 0
  IsFair w =
      ((h : Home) → IsStep label h (w.during_capture h))
      × ((h : Home) → IsStep label h (w.after_inject h))

  wake_failed_cases :
      (j : Text) (m : Message) (h : Home)
      → (wake_failed label j m h ≡ h)
        ⊎ (wake_failed label j m h ≡ write_inbox h label (uncertain_record m))
  unfolding wake_failed
  wake_failed_cases j m h = elim (Option-cases (get (box h label).inbox j)) [
    | inl e ↦ inl (ground (arith, e))
    | inr (latest, e) ↦ inr (ground (arith, e))
  ]

  -- A step after which the job is taken.
  abbrev IsTaking : Text → Home → Home → Type 0
  IsTaking j h h' = IsStep label h h' × (is_taken h' label j ≡ true)

  wake_failed-IsTaking :
      (j : Text) (m : Message) (h : Home)
      → is_taken h label j ≡ true
      → IsTaking j h (wake_failed label j m h)
  wake_failed-IsTaking j m h t = elim (wake_failed_cases j m h) [
    | inl e ↦ subst (IsTaking j h) (sym e) (IsStep-self h, t)
    | inr e ↦
        let s = (write_inbox-IsStep h (uncertain_record m) refl).0 in
        subst (IsTaking j h) (sym e) (s, s.stays j t)
  ]

  woken_by-IsTaking :
      (w : Waking) (j : Text) (m : Message) (h : Home) (o : Option Home)
      → is_taken h label j ≡ true
      → ((h' : Home) → o ≡ some h' → IsStep label h h')
      → IsTaking j h (woken_by w label j m h o).home
        × ((woken_by w label j m h o).typed ≡ some m.job_id)
  woken_by-IsTaking w j m h none t k = (wake_failed-IsTaking j m h t, refl)
  woken_by-IsTaking w j m h (some h') t k = ((k h' refl, (k h' refl).stays j t), refl)

  type_pending-IsTaking :
      (w : Waking) (j : Text) (m : Message) (h : Home)
      → IsFair w
      → m.job_id ≡ j
      → let r = type_pending w label j m h in IsTaking j h r.home × (r.typed ≡ some m.job_id)
  unfolding type_pending
  type_pending-IsTaking w j m h f e =
      let before = write_inbox h label (dispatch_record w m) in
      let (s, t) = write_inbox-IsStep h (dispatch_record w m) refl in
      let s' = IsStep-trans h before (w.after_inject before) s (f.1 before) in
      let t' = (f.1 before).stays j (subst (λ x. is_taken before label x ≡ true) e t) in
      let (last, typed) =
        woken_by-IsTaking w j m (w.after_inject before) _ t'
          (λ h' g. moves (is_submitted w m.job_id) (w.after_inject before) h' m.job_id g) in
      ((IsStep-trans h (w.after_inject before) _ s' last.0, last.1), typed)
    where
      moves :
          (b : Bool) (h h' : Home) (job_id : Text)
          → (if b then move_to_processed h label job_id delivered_receipt else none) ≡ some h'
          → IsStep label h h'
      moves true h h' job_id g = (move_to_processed-IsStep h h' job_id delivered_receipt g).0
      moves false h h' job_id g = absurd (cc g)

  -- What a wake does: files keep their names, what was taken stays taken, and a job whose body it
  -- types was not taken before and is taken afterwards.
  abbrev IsWake : Home → Woken → Type 0
  IsWake h r =
      IsStep label h r.home
      × ((j : Text)
          → r.typed ≡ some j
          → (is_taken h label j ≡ false) × (is_taken r.home label j ≡ true))

  idle-IsWake : (h h' : Home) → IsStep label h h' → IsWake h (idle_wake h')
  idle-IsWake h h' s = (s, λ j e. cc)

  wake_message-IsWake :
      (w : Waking) (j : Text) (r : Rec) (m : Message) (h : Home)
      → IsFair w
      → m.job_id ≡ j
      → is_taken h label j ≡ false
      → IsWake h (wake_message w label j r (some m) h)
  unfolding wake_message
  wake_message-IsWake w j r m h f e n = elim (Bool-cases (screen_user_is_typing w.screen)) [
    | inl t ↦ at (idle_wake h) (idle-IsWake h h (IsStep-self h)) (ground (arith, t))
    | inr q ↦
        let h' = w.during_capture h in
        elim (Bool-cases
          (not (is_some (get (box h' label).inbox j)) || not (get h'.registry label == some r))) [
            | inl t ↦ at (idle_wake h') (idle-IsWake h h' (f.0 h)) (ground (arith, q, t))
            | inr t ↦
                let ((step, after), typed) = type_pending-IsTaking w j m h' f e in
                at (type_pending w label j m h')
                  (
                    IsStep-trans h h' _ (f.0 h) step,
                    λ i g.
                        let same : j ≡ i = ground (arith, e, g, typed) in
                        (
                          subst (λ x. is_taken h label x ≡ false) same n,
                          subst (λ x. is_taken (type_pending w label j m h').home label x ≡ true)
                              same after,
                        ),
                  )
                  (ground (arith, q, t))
          ]
  ]
    where
      at :
          (x : Woken)
          → IsWake h x
          → wake_message w label j r (some m) h ≡ x
          → IsWake h (wake_message w label j r (some m) h)
      at x k e = subst (IsWake h) (sym e) k

  first_sound : (p : Text → Bool) (xs : List Text) (x : Text) → first p xs ≡ some x → p x ≡ true
  first_sound p [] x e = cc e
  first_sound p (y ∷ xs) x e = ground (arith, e, first_sound p xs x)

  eligible_not_taken :
      (w : Waking) (h : Home) (j : Text)
      → is_eligible w (get (box h label).inbox j) ≡ true
      → (m : Message) × (get (box h label).inbox j ≡ some m) × (is_taken h label j ≡ false)
  unfolding eligible_for_watch
  eligible_not_taken w h j e = elim (Option-cases (get (box h label).inbox j)) [
    | inl z ↦ absurd (cc (e, z))
    | inr (m, z) ↦ (m, z, ground (arith, e, z))
  ]

  wake_first-IsWake :
      (w : Waking) (r : Rec) (h : Home)
      → IsFair w
      → IsNamed h label
      → IsWake h (wake_first w label r (first_eligible w (box h label)) h)
  unfolding first_eligible
  wake_first-IsWake w r h f n = elim (Option-cases (first_eligible w (box h label))) [
    | inl e ↦
        at (idle_wake h) (idle-IsWake h h (IsStep-self h)) (ap (λ o. wake_first w label r o h) e)
    | inr (j, e) ↦
        let (m, g, free) = eligible_not_taken w h j (
          first_sound (λ x. is_eligible w (get (box h label).inbox x))
            (sorted (keys (box h label).inbox)) j e) in
        at (wake_message w label j r (some m) h) (wake_message-IsWake w j r m h f (n j m g) free)
          (ap (λ o. wake_first w label r o h) e ∙ ap (λ o. wake_message w label j r o h) g)
  ]
    where
      at :
          (x : Woken)
          → IsWake h x
          → wake_first w label r (first_eligible w (box h label)) h ≡ x
          → IsWake h (wake_first w label r (first_eligible w (box h label)) h)
      at x k e = subst (IsWake h) (sym e) k

  wake_pane-IsWake :
      (w : Waking) (session_id : Text) (h : Home)
      → IsFair w
      → IsNamed h label
      → IsWake h (wake_pane w session_id label h)
  unfolding wake_pane
  wake_pane-IsWake w session_id h f n = elim (Bool-cases (not w.enabled || not w.got_lock)) [
    | inl t ↦ at (idle_wake h) still (ground (arith, t))
    | inr q ↦ elim (Option-cases (get h.registry label)) [
      | inl e ↦ at (idle_wake h) still (ground (arith, q, e))
      | inr (r, e) ↦ elim (Bool-cases (upper r.session_id == upper session_id)) [
        | inr t ↦ at (idle_wake h) still (ground (arith, q, e, t))
        | inl t ↦
            at (wake_first w label r (first_eligible w (box h label)) h)
              (wake_first-IsWake w r h f n) (ground (arith, q, e, t))
      ]
    ]
  ]
    where
      still : IsWake h (idle_wake h)
      still = idle-IsWake h h (IsStep-self h)

      at :
          (x : Woken)
          → IsWake h x
          → wake_pane w session_id label h ≡ x
          → IsWake h (wake_pane w session_id label h)
      at x k e = subst (IsWake h) (sym e) k

  -- Wakes of the label one after another, each followed by what other processes do, and how often
  -- they typed the job's body.
  abbrev pub Wakes : Type 0
  Wakes = List (Waking × Text × (Home → Home))

  abbrev count_of : Text → Option Text → ℕ
  count_of j none = 0
  count_of j (some i) = if i == j then 1 else 0

  unfoldable pub wake_all : Text → Home → Wakes → ℕ
  unfolding wake_pane
  wake_all j h [] = 0
  wake_all j h ((w, sid, others) ∷ ws) =
      let r = wake_pane w sid label h in count_of j r.typed + wake_all j (others r.home) ws

  abbrev pub AllFair : Wakes → Type 0
  AllFair = All (λ x. IsFair x.0 × ((h : Home) → IsStep label h (x.2 h)))

  count_taken :
      (j : Text) (h : Home) (r : Woken)
      → IsWake h r
      → is_taken h label j ≡ true
      → count_of j r.typed ≡ 0
  count_taken j h r k t = elim (Option-cases r.typed) [
    | inl e ↦ ground (arith, e)
    | inr (i, e) ↦ elim (Bool-cases (i == j)) [
      | inl same ↦
          absurd (cc (t, subst (λ x. is_taken h label x ≡ false) ((==_iff i j).0 same) (k.1 i e).0))
      | inr other ↦ ground (arith, e, other)
    ]
  ]

  wake_all-taken :
      (j : Text) (h : Home) (ws : Wakes)
      → AllFair ws
      → IsNamed h label
      → is_taken h label j ≡ true
      → wake_all j h ws ≡ 0
  unfolding wake_all
  wake_all-taken j h [] f n t = refl
  wake_all-taken j h ((w, sid, others) ∷ ws) ((fw, fo), fs) n t =
      let r = wake_pane w sid label h in
      let k = wake_pane-IsWake w sid h fw n in
      let o = fo r.home in
      omega (
        arith,
        count_taken j h r k t,
        wake_all-taken j (others r.home) ws fs (o.named (k.0.named n)) (o.stays j (k.0.stays j t)),
      )

  -- However often the watchdog tries a label, with whatever screens, failures and changes by
  -- others that never make a message look untyped that was typed, it types the body of a message
  -- at most once.
  pub wake_all_once :
      (j : Text) (h : Home) (ws : Wakes) → AllFair ws → IsNamed h label → wake_all j h ws ≤ 1
  unfolding wake_all
  wake_all_once j h [] f n = omega arith
  wake_all_once j h ((w, sid, others) ∷ ws) ((fw, fo), fs) n =
      let r = wake_pane w sid label h in
      let k = wake_pane-IsWake w sid h fw n in
      let o = fo r.home in
      let rest = wake_all_once j (others r.home) ws fs (o.named (k.0.named n)) in
      elim (Option-cases r.typed) [
        | inl e ↦ rw e (omega (arith, rest))
        | inr (i, e) ↦ elim (Bool-cases (i == j)) [
          | inl same ↦
              let t =
                subst (λ x. is_taken r.home label x ≡ true) ((==_iff i j).0 same) (k.1 i e).1 in
              rw (e, same)
                (omega (
                  arith,
                  wake_all-taken j (others r.home) ws fs (o.named (k.0.named n)) (o.stays j t),
                ))
          | inr other ↦ rw (e, other) (omega (arith, rest))
        ]
      ]
