-- ===== src/Ask/Queued.antt =====
-- What an ask leaves behind, on every branch.
use teammate_mcp.Base.{
  Bool, sym, Bool-cases, Option-cases, ==_refl, option_eq, nat_eq, text_eq, ◌≡◌, refl, ap, ◌∙◌, ◌⊎◌,
  inl, inr, true, false, none, some, [], ◌∷◌, arith,
}
use teammate_mcp.Base.Text.{Text}
use teammate_mcp.Base.Dict.{get, get-put}
use teammate_mcp.Registry.{Rec, rec_eq, nonempty, is_mailbox}
use teammate_mcp.Mailbox.{Mode, Message, Home, write_inbox}
use teammate_mcp.Queue.{enqueue, complete, Job, Queue, message_id}
use teammate_mcp.Queue.Places.{complete_unclaimed}
use teammate_mcp.Ask.{
  Writes, no_file, is_written, unfinished, queue_message, to_mailbox, to_channel, Server, Call,
  Reply, is_refused, or_text, or_none, envelope, still_same, recipient, ask,
}

-- The message that an accepted ask stores.
pub record IsStored (c : Call) (question target in_reply_to conversation_id : Text) (m : Message)
    : Type 0 where
  pub id : m.job_id ≡ message_id c.now c.hex
  pub from_ : m.from_ ≡ some c.caller
  pub to : m.to ≡ target
  pub body : m.body ≡ question
  pub reply_to : m.in_reply_to ≡ or_none in_reply_to
  pub conversation : m.conversation_id ≡ some (or_text conversation_id (message_id c.now c.hex))

recipient_lem :
    (h : Home) (target : Text) {e : Rec}
    → recipient h target ≡ some e
    → get h.registry target ≡ some e
recipient_lem h [] p = cc
recipient_lem h (c ∷ target) p = p

module _ (s : Server) (c : Call)
    (addressee question target in_reply_to conversation_id : Text) where
  abbrev pub answer : Reply × Server
  answer = ask s c addressee question target in_reply_to conversation_id

  abbrev pub IsQueued : Type 0
  IsQueued =
      (endpoint : Rec) × (m : Message) × (get s.home.registry target ≡ some endpoint)
      × IsStored c question target in_reply_to conversation_id m
      × (answer.1.home ≡ write_inbox (c.meanwhile s.home) target m)
      × (is_mailbox endpoint.transport ≡ true
          → (get (c.meanwhile s.home).registry target ≡ some endpoint)
            × (m.recipient_thread_id ≡ endpoint.thread_id))
      × (is_mailbox endpoint.transport ≡ false
          → (still_same (get (c.meanwhile s.home).registry target) endpoint ≡ true)
            × (m.delivery_mode ≡ some Mode.claude_channel)
            × (m.recipient_claude_owner ≡ endpoint.claude_owner))

  stored_message : Message
  stored_message =
      envelope (enqueue s.queue c.now c.hex c.caller addressee question 1 c.timeout).0 target
        question in_reply_to conversation_id c.now

  ask_accepted : is_refused answer.0 ≡ false → IsQueued
  unfolding ask enqueue stored_message
  ask_accepted h = elim (Option-cases (recipient s.home target)) [
    | inl e ↦ absurd (ground (arith, e, h))
    | inr (endpoint, e) ↦ elim (Bool-cases (is_mailbox endpoint.transport)) [
      | inl b ↦ (
        endpoint,
        record stored_message { recipient_thread_id = endpoint.thread_id },
        recipient_lem s.home target e,
        record {
          id = refl;
          from_ = refl;
          to = refl;
          body = refl;
          reply_to = refl;
          conversation = refl;
        },
        ground (arith, e, b, h),
        λ _. (ground (arith, e, b, h), refl),
        λ n. absurd (cc (b, n)),
      )
      | inr b ↦ (
        endpoint,
        record stored_message {
          delivery_mode = some Mode.claude_channel;
          recipient_session_id = some endpoint.session_id;
          recipient_claude_owner = endpoint.claude_owner;
        },
        recipient_lem s.home target e,
        record {
          id = refl;
          from_ = refl;
          to = refl;
          body = refl;
          reply_to = refl;
          conversation = refl;
        },
        ground (arith, e, b, h),
        λ n. absurd (cc (b, n)),
        λ _. (ground (arith, e, b, h), refl, refl),
      )
    ]
  ]

  -- What a refused ask leaves: the disk as it was, or with an envelope in the recipient's history.
  abbrev pub IsUnsent : Type 0
  IsUnsent =
      (answer.1.home ≡ s.home)
      ⊎ ((w : Writes) × (m : Message) × (answer.1.home
            ≡ unfinished w (c.meanwhile s.home) target m))

  queue_message-refused :
      (job : Job) (queue : Queue) (m : Message) (fits : Bool) (done : Reply)
      → is_refused done ≡ false
      → let r = queue_message s c job queue target m fits done in
        is_refused r.0 ≡ true
        → (w : Writes) × (r.1.home ≡ unfinished w (c.meanwhile s.home) target m)
  unfolding unfinished
  queue_message-refused job queue m false done d r = (no_file, refl)
  queue_message-refused job queue m true done d r = elim (Bool-cases (is_written c.writes)) [
    | inl t ↦ absurd (ground (arith, t, d, r))
    | inr f ↦ (c.writes, rw f refl)
  ]

  abbrev enqueued : Job × Queue
  enqueued = enqueue s.queue c.now c.hex c.caller addressee question 1 c.timeout

  answer_mailbox :
      (endpoint : Rec)
      → nonempty c.caller ≡ true
      → recipient s.home target ≡ some endpoint
      → is_mailbox endpoint.transport ≡ true
      → answer ≡ to_mailbox s c enqueued.0 enqueued.1 target stored_message endpoint
  unfolding ask stored_message
  answer_mailbox endpoint y e b = ground (arith, y, e, b)

  answer_channel :
      (endpoint : Rec)
      → nonempty c.caller ≡ true
      → recipient s.home target ≡ some endpoint
      → is_mailbox endpoint.transport ≡ false
      → answer ≡ to_channel s c enqueued.0 enqueued.1 target stored_message endpoint
  unfolding ask stored_message
  answer_channel endpoint y e b = ground (arith, y, e, b)

  ask_refused : is_refused answer.0 ≡ true → IsUnsent
  unfolding ask enqueue to_mailbox to_channel
  ask_refused h = elim (Bool-cases (nonempty c.caller)) [
    | inr n ↦ inl (ground (arith, n))
    | inl y ↦ elim (Option-cases (recipient s.home target)) [
      | inl e ↦ inl (ground (arith, e, y))
      | inr (endpoint, e) ↦ elim (Bool-cases (is_mailbox endpoint.transport)) [
        | inl b ↦
            let (w, p) =
              queue_message-refused enqueued.0 enqueued.1 _ _ _ refl
                (ap (λ r. is_refused r.0) (sym (answer_mailbox endpoint y e b)) ∙ h) in
            inr (w, _, ap (λ r. r.1.home) (answer_mailbox endpoint y e b) ∙ p)
        | inr b ↦
            let (w, p) =
              queue_message-refused enqueued.0 enqueued.1 _ _ _ refl
                (ap (λ r. is_refused r.0) (sym (answer_channel endpoint y e b)) ∙ h) in
            inr (w, _, ap (λ r. r.1.home) (answer_channel endpoint y e b) ∙ p)
      ]
    ]
  ]

  -- An ask that is not refused has stored exactly one message, the caller's own, in the
  -- recipient's inbox and history. The recipient is the session that the label named, both when
  -- it was looked up and under the registry lock. A refused ask has put nothing into an inbox: the
  -- disk is as it was, but for an envelope in the history where the write stopped half-way.
  pub ask_effect :
      (is_refused answer.0 ≡ false → IsQueued) × (is_refused answer.0 ≡ true → IsUnsent)
  ask_effect = (ask_accepted, ask_refused)

  accepted_queue :
      is_refused answer.0 ≡ false → answer.1.queue ≡ complete enqueued.1 enqueued.0.id [] c.now
  unfolding ask
  accepted_queue h = elim (Option-cases (recipient s.home target)) [
    | inl e ↦ absurd (ground (arith, e, h))
    | inr (endpoint, e) ↦ ground (arith, e, h)
  ]

  enqueued_pending : get enqueued.1.pending (message_id c.now c.hex) ≡ some enqueued.0
  unfolding enqueue
  enqueued_pending = simp (get-put, ==_refl) refl

  -- An accepted ask leaves its queue record in `pending`: it is completed without having been
  -- claimed, and that does nothing.
  pub ask_stays_pending :
      get s.queue.inflight (message_id c.now c.hex) ≡ none
      → is_refused answer.0 ≡ false
      → (answer.1.queue ≡ enqueued.1)
        × (get answer.1.queue.pending (message_id c.now c.hex) ≡ some enqueued.0)
  ask_stays_pending free h =
      let same : answer.1.queue ≡ enqueued.1 =
        accepted_queue h
        ∙ complete_unclaimed enqueued.1 enqueued.0.id [] c.now (unfold enqueue in free) in
      (same, ap (λ q. get q.pending (message_id c.now c.hex)) same ∙ enqueued_pending)
