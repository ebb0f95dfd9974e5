-- ===== src/Worker/Safety.antt =====
-- src/teammate_mcp/mailbox_worker.py: what an attempt sends, and the state that it leaves.
use teammate_mcp.Base.{
  ltb, Bool-cases, Option-cases, is_some, ◌==◌, ==_refl, option_eq, nat_eq, text_eq, ℕ, ◌≤◌, ◌≡◌,
  refl, ap, ◌∙◌, subst, ◌≢◌, ◌⊎◌, inl, inr, Bool, true, false, not, ◌&&◌, Option, none, some, [],
  ◌∷◌, arith,
}
use teammate_mcp.Base.Text.{Text}
use teammate_mcp.Base.Dict.{get, get-put}
use teammate_mcp.Registry.{nonempty, Rec}
use teammate_mcp.Work.{dispatching, Work, work_terminal, work_retry_at, only}
use teammate_mcp.Mailbox.{Message, Home, box}
use teammate_mcp.Codex
use teammate_mcp.Codex.{
  ThreadStatus, active, other_status, Thread, Turn, Answer, answered, rejected, broken, Peer,
  Failure, value_error, rpc_error, other_error, already_processed, Delivered, Result, Input, start,
  steer, input_thread, input_client, Run, active_turn, client_id, accepted, answer_id, stop,
  outcome_of, sent_after, send_input, steer_turn, by_status, on_thread, deliver,
}
use teammate_mcp.Codex.Dispatch.{deliver-IsCareful, IsCareful}
use teammate_mcp.Settings.{is_retryable}
use teammate_mcp.Worker.{
  Attempt, read_delivery, write_state, turn_text, is_true, dispatching_step, settle, Attempted,
  policy_or_idle, send_record, untouched, deliver_record,
}

pub read_delivery-write_state :
    (h : Home) (label job_id : Text) (w : Work)
    → read_delivery (write_state h label job_id w) label job_id ≡ some w
unfolding read_delivery write_state
read_delivery-write_state h label job_id w = simp (get-put, ==_refl) refl

-- The other processes leave the delivery file alone while its lock is held.
abbrev pub IsUndisturbed : Attempt → Text → Text → Type 0
IsUndisturbed a label job_id =
    (h : Home) → read_delivery (a.afterwards h) label job_id ≡ read_delivery h label job_id

abbrev pub is_rejected {ℓ} : {A : Type ℓ} → Answer A → Bool
is_rejected rejected = true
is_rejected _ = false

-- An input went out, and the server did not reject it.
abbrev pub is_taken : Attempt → Attempted → Bool
is_taken a r = nonempty r.inputs && not (is_rejected a.peer.dispatch)

pub dispatching_step-ok :
    (label job_id : Text) (endpoint : Rec) (free : Bool) (h : Home)
    → (dispatching_step label job_id endpoint free h).0 ≡ Codex.Result.ok tt
    → ((dispatching_step label job_id endpoint free h).1
        ≡ write_state h label job_id (only dispatching))
      × (is_some (get (box h label).inbox job_id) ≡ true)
      × (is_true endpoint.auto_delivery ≡ true → get h.registry label ≡ some endpoint)
unfolding dispatching_step
dispatching_step-ok label job_id endpoint free h p =
    (ground (arith, p), ground (arith, p), λ t. ground (arith, p, t))

-- A final state that the receiver cannot queue again by `retry_delivery`.
abbrev pub is_spent : Option Work → Bool
is_spent w = work_terminal w && not (is_retryable w)

-- After a dispatch that was recorded and not rejected, what is written is final.
settle_taken :
    (state : Option Work) (r : Codex.Result Delivered) (later : ℕ)
    → r ≢ Codex.Result.err rpc_error
    → r ≢ Codex.Result.ok Delivered.waiting
    → is_spent (some (settle state (some (only dispatching)) r later)) ≡ true
unfolding settle
settle_taken state (Codex.Result.ok Delivered.waiting) later n w = absurd (w refl)
settle_taken state (Codex.Result.ok (Delivered.delivered t)) later n w = refl
settle_taken state (Codex.Result.err value_error) later n w = refl
settle_taken state (Codex.Result.err rpc_error) later n w = absurd (n refl)
settle_taken state (Codex.Result.err other_error) later n w = refl
settle_taken state (Codex.Result.err already_processed) later n w = refl

-- The report of an answer is neither a rejection, where there is none, nor a wait.
outcome_taken :
    {D : Type 0} (peer : Peer) (before : D → Codex.Result (Unit {0}) × D) (i : Input)
    → is_rejected peer.dispatch ≡ false
    → (outcome_of peer before i peer.dispatch ≢ Codex.Result.err rpc_error)
      × (outcome_of peer before i peer.dispatch ≢ Codex.Result.ok Delivered.waiting)
outcome_taken peer before i n = (λ e. go peer.dispatch n e, λ e. stay peer.dispatch e)
  where
    id_go : (o : Option Text) → accepted o ≢ Codex.Result.err rpc_error
    id_go none e = cc
    id_go (some []) e = cc
    id_go (some (c ∷ s)) e = cc

    go :
        (x : Answer Codex.Response)
        → is_rejected x ≡ false
        → outcome_of peer before i x ≢ Codex.Result.err rpc_error
    go (answered r) m e = id_go (answer_id i r) e
    go rejected m e = cc
    go broken m e = cc

    id_stay : (o : Option Text) → accepted o ≢ Codex.Result.ok Delivered.waiting
    id_stay none e = cc
    id_stay (some []) e = cc
    id_stay (some (c ∷ s)) e = cc

    stay :
        (x : Answer Codex.Response) → outcome_of peer before i x ≢ Codex.Result.ok Delivered.waiting
    stay (answered r) e = id_stay (answer_id i r) e
    stay rejected e = cc
    stay broken e = cc

module _ (client : Text) (h : Home) (label job_id : Text) (endpoint : Rec) where
  -- A message in a final state is never sent, whatever the endpoint and the server.
  pub terminal_stops :
      (a : Attempt)
      → work_terminal (read_delivery h label job_id) ≡ true
      → deliver_record client h label job_id endpoint a ≡ untouched h
  unfolding deliver_record
  terminal_stops a t = ground (arith, t)

  settled_taken :
      (thread_id text : Text) (a : Attempt) (r : Run Home)
      → IsUndisturbed a label job_id
      → IsCareful a.peer
          (dispatching_step label job_id endpoint a.receipt_free)
          thread_id
          text
          job_id
          (a.meanwhile h)
          r
      → (nonempty r.inputs && not (is_rejected a.peer.dispatch)) ≡ true
      → is_spent (
          some (
            settle
              (read_delivery h label job_id)
              (read_delivery (a.afterwards r.disk) label job_id)
              r.result
              a.later))
        ≡ true
  settled_taken thread_id text a r u c t =
      let (i, _, _, _, disk, passed, result) = c.single (λ e. ground (arith, t, e)) in
      let seen : read_delivery (a.afterwards r.disk) label job_id ≡ some (only dispatching) =
        u r.disk
        ∙ (ap (λ d. read_delivery d label job_id)
              (disk
                ∙ (dispatching_step-ok label job_id endpoint a.receipt_free (a.meanwhile h)
                    passed).0)
            ∙ read_delivery-write_state (a.meanwhile h) label job_id (only dispatching)) in
      let (n, w) =
        outcome_taken a.peer (dispatching_step label job_id endpoint a.receipt_free) i
          (ground (arith, t)) in
      rw (seen, result)
        (settle_taken (read_delivery h label job_id)
          (outcome_of a.peer (dispatching_step label job_id endpoint a.receipt_free) i
            a.peer.dispatch)
          a.later n w)

  send_record_taken :
      (thread_id : Text) (m : Message) (a : Attempt)
      → IsUndisturbed a label job_id
      → is_taken a (send_record client h label job_id endpoint thread_id m a) ≡ true
      → is_spent (
          read_delivery
            (send_record client h label job_id endpoint thread_id m a).home
            label
            job_id)
        ≡ true
  unfolding send_record
  send_record_taken thread_id m a u t = rw read_delivery-write_state (
      settled_taken thread_id (turn_text client label job_id m) a _ u
        (deliver-IsCareful a.peer (dispatching_step label job_id endpoint a.receipt_free) thread_id
          (turn_text client label job_id m) job_id (some (policy_or_idle endpoint.delivery_policy))
          (a.meanwhile h))
        t)

  -- An attempt that sends anything found the message due, in the inbox and addressed to the
  -- endpoint's thread.
  abbrev pub IsDue : Attempt → Text → Message → Type 0
  IsDue a thread_id m =
      (a.lock_free ≡ true)
      × (work_terminal (read_delivery h label job_id) ≡ false)
      × (work_retry_at (read_delivery h label job_id) ≤ a.now)
      × (endpoint.thread_id ≡ some thread_id)
      × (get (box h label).inbox job_id ≡ some m)
      × (m.recipient_thread_id ≡ some thread_id)

  pub deliver_record_cases :
      (a : Attempt)
      → (nonempty (deliver_record client h label job_id endpoint a).inputs ≡ false)
        ⊎ ((thread_id : Text) × (m : Message) × IsDue a thread_id m
            × (deliver_record client h label job_id endpoint a
                ≡ send_record client h label job_id endpoint thread_id m a))
  unfolding deliver_record
  deliver_record_cases a = elim (Option-cases (get (box h label).inbox job_id)) [
    | inl e ↦ inl (ground (arith, e))
    | inr (m, e) ↦ elim (Option-cases endpoint.thread_id) [
      | inl f ↦ inl (ground (arith, e, f))
      | inr (t, f) ↦
          elim (Bool-cases (
            a.lock_free
            && not (work_terminal (read_delivery h label job_id))
            && not (ltb a.now (work_retry_at (read_delivery h label job_id)))
            && m.recipient_thread_id == some t)) [
              | inl b ↦ inr (
                t,
                m,
                (ground (arith, b), ground (arith, b), ground (arith, b), f, e, ground (arith, b)),
                ground (arith, e, f, b),
              )
              | inr b ↦ inl (ground (arith, e, f, b))
            ]
    ]
  ]

  -- If an input went out and the server did not reject it, the message is left in a final state
  -- that cannot be queued again.
  pub taken_is_final :
      (a : Attempt)
      → IsUndisturbed a label job_id
      → is_taken a (deliver_record client h label job_id endpoint a) ≡ true
      → is_spent (read_delivery (deliver_record client h label job_id endpoint a).home label job_id)
        ≡ true
  taken_is_final a u t = elim (deliver_record_cases a) [
    | inl e ↦ absurd (ground (arith, e, t))
    | inr (thread_id, m, due, e) ↦
        rw e (send_record_taken thread_id m a u (subst (λ r. is_taken a r ≡ true) e t))
  ]
