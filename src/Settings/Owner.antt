-- ===== src/Settings/Owner.antt =====
-- src/teammate_mcp/server.py: whose address a session's tools change.
use teammate_mcp.Base.{
  Bool-cases, Option-cases, ◌==◌, ==_iff, option_eq, nat_eq, text_eq, ◌≡◌, refl, sym, ap, ◌∙◌,
  subst, ◌⊎◌, inl, inr, Bool, true, false, Option, none, some, arith,
}
use teammate_mcp.Base.Text.{Text}
use teammate_mcp.Base.Dict.{get, put, get-put, put-NodupKeys}
use teammate_mcp.Registry.{rec_eq, Registry, Rec, Policy}
use teammate_mcp.Registry.Consistent.{IsConsistent}
use teammate_mcp.Work.{queued, only}
use teammate_mcp.Mailbox.{Message, Home, box}
use teammate_mcp.Codex.{Thread, Answer}
use teammate_mcp.Worker.{read_delivery, write_state, is_true}
use teammate_mcp.Ask.{or_text}
use teammate_mcp.Settings.{
  RetryRefusal, refused, requeued, is_retryable, retry_delivery, takes_input, configured,
  configure_mailbox_delivery,
}

-- A retry that is refused changes nothing. One that is granted is the receiver's own, for a
-- message that is still pending, that is addressed to the thread of the label, and whose last
-- attempt is known to have failed; all it writes is that the delivery is queued again.
pub retry_delivery_effect :
    (h : Home) (caller label job_id : Text) (lock_free : Bool)
    → let a = retry_delivery h caller label job_id lock_free in
      ((e : RetryRefusal) → a.0 ≡ refused e → a.1 ≡ h)
      × ((automatic : Bool)
          → a.0 ≡ requeued automatic
          → (a.1 ≡ write_state h caller job_id (only queued))
            × (is_retryable (read_delivery h caller job_id) ≡ true)
            × ((m : Message) × (endpoint : Rec) × (get (box h caller).inbox job_id ≡ some m)
                × (get h.registry caller ≡ some endpoint)
                × (m.recipient_thread_id ≡ endpoint.thread_id)
                × (automatic ≡ is_true endpoint.auto_delivery)))
unfolding retry_delivery
retry_delivery_effect h caller label job_id lock_free =
    elim (Option-cases (get (box h l).inbox job_id)) [
      | inl e ↦ (λ r q. ground (arith, e, q), λ a q. absurd (ground (arith, e, q)))
      | inr (m, e) ↦ elim (Option-cases (get h.registry l)) [
        | inl f ↦ (λ r q. ground (arith, e, f, q), λ a q. absurd (ground (arith, e, f, q)))
        | inr (endpoint, f) ↦ (
          λ r q. ground (arith, e, f, q),
          λ a q.
              let same : l ≡ caller = ground (arith, q) in
              (
                ground (arith, e, f, q, same),
                subst (λ x. is_retryable (read_delivery h x job_id) ≡ true) same
                    (ground (arith, q)),
                (
                  m,
                  endpoint,
                  subst (λ x. get (box h x).inbox job_id ≡ some m) same e,
                  subst (λ x. get h.registry x ≡ some endpoint) same f,
                  ground (arith, e, f, q),
                  ground (arith, e, f, q),
                ),
              ),
        )
      ]
    ]
  where
    l : Text
    l = or_text label caller

configured_same :
    (r : Rec) (p : Policy) (enabled : Bool) (cwd : Option Text) (socket : Text)
    → let r' = configured r p enabled cwd socket in
      (r'.session_id ≡ r.session_id) × (r'.thread_id ≡ r.thread_id) × (r'.transport ≡ r.transport)
unfolding configured
configured_same r p true cwd socket = (refl, refl, refl)
configured_same r p false cwd socket = (refl, refl, refl)

-- New contents under the label that leave its session alone.
update-IsConsistent :
    (d : Registry) (label : Text) (r r' : Rec)
    → IsConsistent d
    → get d label ≡ some r
    → r'.session_id ≡ r.session_id
    → r'.thread_id ≡ r.thread_id
    → r'.transport ≡ r.transport
    → IsConsistent (put d label r')
update-IsConsistent d label r r' c g s t k = record {
  nodup = put-NodupKeys d label r' c.nodup;
  panes = λ j i a b ha hb same.
      let (a0, ga, sa, _, _) = below j a ha in
      let (b0, gb, sb, _, _) = below i b hb in c.panes j i a0 b0 ga gb (rw (← sa, ← sb) same);
  threads = λ j i a b ha hb both same.
      let (a0, ga, _, ta, ka) = below j a ha in
      let (b0, gb, _, tb, kb) = below i b hb in
      c.threads j i a0 b0 ga gb (rw (← ka, ← kb) both) (sym ta ∙ same ∙ tb);
}
  where
    below :
        (j : Text) (a : Rec)
        → get (put d label r') j ≡ some a
        → (a0 : Rec) × (get d j ≡ some a0)
          × (a.session_id ≡ a0.session_id)
          × (a.thread_id ≡ a0.thread_id)
          × (a.transport ≡ a0.transport)
    below j a ha = elim (Bool-cases (label == j)) [
      | inl e ↦
          let same = (==_iff label j).0 e in
          let now : r' ≡ a = ground (arith, ha, get-put d label j r', e) in
          (
            r,
            subst (λ x. get d x ≡ some r) same g,
            ap (λ x. x.session_id) (sym now) ∙ s,
            ap (λ x. x.thread_id) (sym now) ∙ t,
            ap (λ x. x.transport) (sym now) ∙ k,
          )
      | inr f ↦ (a, ground (arith, ha, get-put d label j r', f), refl, refl, refl)
    ]

-- The settings are written only by the thread that owns the label, and only if the label's record
-- is still what it was; where delivery is enabled the app-server must know the thread. Otherwise
-- the tool writes nothing. It never lets a pane have two labels or a thread two mailboxes.
pub configure_mailbox_delivery_effect :
    (d : Registry) (owner label : Text) (policy : Option Policy) (enabled : Bool)
    (thread : Answer Thread) (cwd : Option Text) (socket : Text) (meanwhile : Registry → Registry)
    → let a = configure_mailbox_delivery d owner label policy enabled thread cwd socket meanwhile in
      (a.0 ≡ false → (a.1 ≡ d) ⊎ (a.1 ≡ meanwhile d))
      × (a.0 ≡ true
          → (r : Rec) × (p : Policy) × (get d label ≡ some r)
            × (r.thread_id ≡ some owner)
            × (get (meanwhile d) label ≡ some r)
            × (enabled ≡ true → takes_input thread owner ≡ true)
            × (a.1 ≡ put (meanwhile d) label (configured r p enabled cwd socket))
            × (IsConsistent (meanwhile d) → IsConsistent a.1))
unfolding configure_mailbox_delivery
configure_mailbox_delivery_effect d owner label none enabled thread cwd socket meanwhile =
    (λ f. inl refl, λ t. absurd (cc t))
configure_mailbox_delivery_effect d owner label (some p) enabled thread cwd socket meanwhile =
    elim (Option-cases (get d label)) [
      | inl e ↦ (λ f. ground (arith, e, f), λ t. absurd (ground (arith, e, t)))
      | inr (r, e) ↦ (
        λ f. ground (arith, e, f),
        λ t.
            let still : get (meanwhile d) label ≡ some r = ground (arith, e, t) in
            let written : (configure_mailbox_delivery d owner label (some p) enabled thread cwd
                  socket meanwhile).1
                ≡ put (meanwhile d) label (configured r p enabled cwd socket) =
              ground (arith, e, t) in
            (
              r,
              p,
              e,
              ground (arith, e, t),
              still,
              λ n. ground (arith, e, t, n),
              written,
              λ c. subst IsConsistent (sym written) (
                  update-IsConsistent (meanwhile d) label r (configured r p enabled cwd socket) c
                    still (configured_same r p enabled cwd socket).0
                    (configured_same r p enabled cwd socket).1
                    (configured_same r p enabled cwd socket).2),
            ),
      )
    ]
