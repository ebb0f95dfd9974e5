-- ===== src/Worker/Once.antt =====
-- src/teammate_mcp/mailbox_worker.py: a series of attempts at one message.
use teammate_mcp.Ask.{or_text}
use teammate_mcp.Work.{queued, Work, only}
use teammate_mcp.Settings.{retry_delivery}
use teammate_mcp.Base.{
  ◌==◌, ==_iff, ◌⊎◌, ◌∷◌, inr, sym, subst, Bool, false, if◌then◌else◌, Bool-cases, is_some,
  option_eq, nat_eq, text_eq, All, ℕ, ◌+◌, ◌≤◌, ◌≡◌, refl, ap, inl, true, some, List, [], arith,
}
use teammate_mcp.Base.Text.{Text}
use teammate_mcp.Base.Dict.{get, get-put}
use teammate_mcp.Registry.{nonempty, Rec}
use teammate_mcp.Mailbox.{Message, Home, box}
use teammate_mcp.Codex.{Input, input_thread, input_client, client_id}
use teammate_mcp.Codex.Dispatch.{deliver-IsCareful}
use teammate_mcp.Worker.{
  Attempt, write_state, read_delivery, turn_text, is_true, dispatching_step, policy_or_idle,
  send_record, deliver_record,
}
use teammate_mcp.Worker.Safety.{
  dispatching_step-ok, IsUndisturbed, is_taken, terminal_stops, IsDue, deliver_record_cases,
  taken_is_final, is_spent,
}

-- What happens to one message, in order: an attempt, with the endpoint that the registry then gave;
-- a call of `retry_delivery` for it, by some caller, with or without a label; and what others change.
pub data Event : Type 0 where
  attempts : Rec → Attempt → Event
  retries : Text → Text → Bool → Event
  others : (Home → Home) → Event

-- The disk after an event, and how many inputs were taken.
unfoldable pub happen : Text → Home → Text → Text → Event → Home × ℕ
happen client h label job_id (attempts endpoint a) =
    let r = deliver_record client h label job_id endpoint a in
    (r.home, if is_taken a r then 1 else 0)
happen client h label job_id (retries caller label' lock_free) =
    ((retry_delivery h caller label' job_id lock_free).1, 0)
happen client h label job_id (others f) = (f h, 0)

unfoldable pub deliver_all : Text → Home → Text → Text → List Event → Home × ℕ
deliver_all client h label job_id [] = (h, 0)
deliver_all client h label job_id (v ∷ events) =
    let (h', n) = happen client h label job_id v in
    let (h'', k) = deliver_all client h' label job_id events in (h'', n + k)

-- Others leave the message's delivery file alone: after an attempt's request while its lock is
-- still held, and between the events. Before the request they may do anything.
abbrev pub IsRespectful : Text → Text → Event → Type 0
IsRespectful label job_id (attempts endpoint a) = IsUndisturbed a label job_id
IsRespectful label job_id (retries caller label' lock_free) = Unit
IsRespectful label job_id (others f) =
    (h : Home) → read_delivery (f h) label job_id ≡ read_delivery h label job_id

read_delivery-elsewhere :
    (h : Home) (label k job_id : Text) (w : Work)
    → (k == label) ≡ false
    → read_delivery (write_state h k job_id w) label job_id ≡ read_delivery h label job_id
unfolding read_delivery write_state
read_delivery-elsewhere h label k job_id w n = simp (get-put, n) refl

retry_spent :
    (h : Home) (caller label label' job_id : Text) (lock_free : Bool)
    → is_spent (read_delivery h label job_id) ≡ true
    → is_spent (read_delivery (retry_delivery h caller label' job_id lock_free).1 label job_id)
      ≡ true
unfolding retry_delivery
retry_spent h caller label label' job_id lock_free t =
    elim (Bool-cases (or_text label' caller == label)) [
      | inl e ↦
          let same = (==_iff (or_text label' caller) label).0 e in
          let s : is_spent (read_delivery h (or_text label' caller) job_id) ≡ true =
            subst (λ k. is_spent (read_delivery h k job_id) ≡ true) (sym same) t in
          ground (arith, s, t)
      | inr n ↦ ground (
        arith,
        t,
        n,
        read_delivery-elsewhere h label (or_text label' caller) job_id (only queued),
      )
    ]

-- Once spent, a message stays so, and nothing more of it is taken.
happen-spent :
    (client : Text) (h : Home) (label job_id : Text) (v : Event)
    → IsRespectful label job_id v
    → is_spent (read_delivery h label job_id) ≡ true
    → (is_spent (read_delivery (happen client h label job_id v).0 label job_id) ≡ true)
      × ((happen client h label job_id v).1 ≡ 0)
unfolding happen
happen-spent client h label job_id (attempts endpoint a) u t =
    rw (terminal_stops client h label job_id endpoint a (ground (arith, t))) (t, refl)
happen-spent client h label job_id (retries caller label' lock_free) u t =
    (retry_spent h caller label label' job_id lock_free t, refl)
happen-spent client h label job_id (others f) u t = (rw (u h) t, refl)

deliver_all-spent :
    (client : Text) (h : Home) (label job_id : Text) (events : List Event)
    → All (IsRespectful label job_id) events
    → is_spent (read_delivery h label job_id) ≡ true
    → (deliver_all client h label job_id events).1 ≡ 0
unfolding deliver_all
deliver_all-spent client h label job_id [] us t = refl
deliver_all-spent client h label job_id (v ∷ events) (u, us) t =
    let (s, n) = happen-spent client h label job_id v u t in
    omega (
      arith,
      n,
      deliver_all-spent client (happen client h label job_id v).0 label job_id events us s,
    )

-- An event takes no input, or one, and then the message is spent.
happen_cases :
    (client : Text) (h : Home) (label job_id : Text) (v : Event)
    → IsRespectful label job_id v
    → ((happen client h label job_id v).1 ≡ 0)
      ⊎ (((happen client h label job_id v).1 ≡ 1)
          × (is_spent (read_delivery (happen client h label job_id v).0 label job_id) ≡ true))
unfolding happen
happen_cases client h label job_id (attempts endpoint a) u =
    elim (Bool-cases (is_taken a (deliver_record client h label job_id endpoint a))) [
      | inl t ↦ inr (rw t refl, taken_is_final client h label job_id endpoint a u t)
      | inr f ↦ inl (rw f refl)
    ]
happen_cases client h label job_id (retries caller label' lock_free) u = inl refl
happen_cases client h label job_id (others f) u = inl refl

-- However often delivery of a message is attempted, under whatever endpoints and answers of the
-- server, whenever its receiver calls `retry_delivery`, and whatever others do to the disk, as long
-- as they leave the message's delivery file alone between the events and while an attempt that has
-- sent its request holds the lock, at most one input for it is taken by the server.
pub deliver_all_once :
    (client : Text) (h : Home) (label job_id : Text) (events : List Event)
    → All (IsRespectful label job_id) events
    → (deliver_all client h label job_id events).1 ≤ 1
unfolding deliver_all
deliver_all_once client h label job_id [] us = omega arith
deliver_all_once client h label job_id (v ∷ events) (u, us) =
    let h' = (happen client h label job_id v).0 in
    elim (happen_cases client h label job_id v u) [
      | inl z ↦ omega (arith, z, deliver_all_once client h' label job_id events us)
      | inr (o, s) ↦ omega (arith, o, deliver_all-spent client h' label job_id events us s)
    ]

-- What an attempt sends is one input to the endpoint's thread under the job's client id, for a
-- message that is due, addressed to that thread, and still in the inbox when it is dispatched; an
-- automatic endpoint is then still the registered one.
pub deliver_record_addressed :
    (client : Text) (h : Home) (label job_id : Text) (endpoint : Rec) (a : Attempt)
    → nonempty (deliver_record client h label job_id endpoint a).inputs ≡ true
    → (thread_id : Text) × (m : Message) × (i : Input) × IsDue client h label job_id endpoint a
        thread_id m
      × ((deliver_record client h label job_id endpoint a).inputs ≡ i ∷ [])
      × (input_thread i ≡ thread_id)
      × (input_client i ≡ client_id job_id)
      × (is_some (get (box (a.meanwhile h) label).inbox job_id) ≡ true)
      × (is_true endpoint.auto_delivery ≡ true → get (a.meanwhile h).registry label ≡ some endpoint)
unfolding send_record
deliver_record_addressed client h label job_id endpoint a n =
    elim (deliver_record_cases client h label job_id endpoint a) [
      | inl e ↦ absurd (cc (e, n))
      | inr (thread_id, m, due, e) ↦
          let c =
            deliver-IsCareful a.peer (dispatching_step label job_id endpoint a.receipt_free)
              thread_id (turn_text client label job_id m) job_id
              (some (policy_or_idle endpoint.delivery_policy)) (a.meanwhile h) in
          let (i, one, to, under, disk, passed, result) =
            c.single (λ q. ground (arith, n, ap (λ r. r.inputs) e, q)) in
          let step =
            dispatching_step-ok label job_id endpoint a.receipt_free (a.meanwhile h) passed in
          (thread_id, m, i, due, rw e one, to, under, step.1, step.2)
    ]
