-- ===== src/Worker/Scan.antt =====
-- `scan_once` of src/teammate_mcp/mailbox_worker.py: the pass over the mailboxes. `connects` is
-- whether the app-server's socket opens for a label, and a job's attempt is a parameter.
use teammate_mcp.Base.{
  ltb, leb, if◌then◌else◌, Bool-cases, ◌==◌, ==_refl, option_eq, nat_eq, text_eq, keep, ℕ, zero,
  suc, ◌+◌, ◌*◌, ◌^◌, ◌≤◌, ◌≡◌, refl, ◌⊎◌, inl, inr, Bool, true, false, not, ◌||◌, Option, some,
  List, [], ◌∷◌, arith,
}
use teammate_mcp.Base.Text.{Text, str}
use teammate_mcp.Base.Dict.{get, keys, get-put}
use teammate_mcp.Base.Order.{sorted}
use teammate_mcp.Registry.{rec_eq, nonempty, Registry, Rec, is_mailbox}
use teammate_mcp.Work.{Work, connected, retry, only, work_terminal, work_attempts, work_retry_at}
use teammate_mcp.Mailbox.{Home, box}
use teammate_mcp.Worker.{Attempt, read_delivery, write_state, is_true, deliver_record}

abbrev pub connection : Text
connection = str "connection"

abbrev pub min_of : ℕ → ℕ → ℕ
min_of m n = if leb m n then m else n

-- The state after a pass that failed, `state` being the one before it.
unfoldable pub connection_failed : Option Work → ℕ → Work
connection_failed state later =
    let attempts = work_attempts state + 1 in
    record {
      state = retry;
      attempts = attempts;
      retry_at = later + 1000 * min_of 60 (2 ^ min_of attempts 6);
    }

-- The deliveries of a connection, and whether one of them raised; they stop where the label's
-- endpoint is replaced.
unfoldable pub deliver_pending :
    Text → Text → Rec → (Text → Attempt) → Home → List Text → Home × Bool
unfolding deliver_record
deliver_pending client label endpoint a h [] = (h, false)
deliver_pending client label endpoint a h (job_id ∷ rest) =
    let r = deliver_record client h label job_id endpoint (a job_id) in
    let more = deliver_pending client label endpoint a r.home rest in
    if not (get h.registry label == some endpoint)
    then (h, false)
    else if r.raised
    then (r.home, true)
    else more

unfoldable pub pending_jobs : Home → Text → List Text
unfolding sorted read_delivery
pending_jobs h label =
    keep (λ j. not (work_terminal (read_delivery h label j))) (sorted (keys (box h label).inbox))

abbrev pub on_error : Text → Option Work → ℕ → Home × Bool → Home
on_error label state later (h, raised) =
    if raised then write_state h label connection (connection_failed state later) else h

-- One mailbox of the pass.
unfoldable pub scan_mailbox : Text → Text → Rec → Bool → (Text → Attempt) → ℕ → ℕ → Home → Home
unfolding read_delivery write_state deliver_pending pending_jobs connection_failed
scan_mailbox client label endpoint connects a now later h =
    let state = read_delivery h label connection in
    if not (is_mailbox endpoint.transport) || not (is_true endpoint.auto_delivery)
    then h
    else if not (nonempty (pending_jobs h label))
    then h
    else if ltb now (work_retry_at state)
    then h
    else if not connects
    then write_state h label connection (connection_failed state later)
    else on_error label state later (
        deliver_pending client label endpoint a (write_state h label connection (only connected))
          (pending_jobs h label))

unfoldable pub scan_mailboxes :
    Text → (Text → Bool) → (Text → Text → Attempt) → ℕ → ℕ → Registry → Home → Home
unfolding scan_mailbox
scan_mailboxes client connects a now later [] h = h
scan_mailboxes client connects a now later ((label, endpoint) ∷ rest) h =
    scan_mailboxes client connects a now later rest
      (scan_mailbox client label endpoint (connects label) (a label) now later h)

-- The pass over the labels that the registry held when it began.
unfoldable pub scan_once : Text → (Text → Bool) → (Text → Text → Attempt) → ℕ → ℕ → Home → Home
unfolding scan_mailboxes
scan_once client connects a now later h = scan_mailboxes client connects a now later h.registry h

box-write_state :
    (h : Home) (label job_id : Text) (w : Work)
    → (box (write_state h label job_id w) label).inbox ≡ (box h label).inbox
unfolding write_state
box-write_state h label job_id w = simp (get-put, ==_refl) refl

min_of_ge : (k m n : ℕ) → k ≤ m → k ≤ n → k ≤ min_of m n
min_of_ge k m n a b = ground (arith, a, b)

min_of_le : (m n : ℕ) → min_of m n ≤ m
min_of_le m n = ground arith

pow_ge : (k : ℕ) → 1 ≤ 2 ^ k
pow_ge zero = omega arith
pow_ge (suc k) = omega (arith, pow_ge k)

pow_even : (v : ℕ) → 1 ≤ v → 2 ≤ 2 ^ v
pow_even zero h = omega (arith, h)
pow_even (suc k) h = omega (arith, pow_ge k)

-- A wait is at least 2 and at most 60 seconds.
connection_wait :
    (n : ℕ) → (2 ≤ min_of 60 (2 ^ min_of (n + 1) 6)) × (min_of 60 (2 ^ min_of (n + 1) 6) ≤ 60)
connection_wait n =
    let v = min_of_ge 1 (n + 1) 6 (omega arith) (omega arith) in
    (
      min_of_ge 2 60 (2 ^ min_of (n + 1) 6) (omega arith) (pow_even (min_of (n + 1) 6) v),
      min_of_le 60 (2 ^ min_of (n + 1) 6),
    )

-- While the socket of a mailbox does not open, a pass changes nothing of its mail: at most it
-- records that the connection is to be tried again, between 2 and 60 seconds later.
pub scan_mailbox_backs_off :
    (client label : Text) (endpoint : Rec) (a : Text → Attempt) (now later : ℕ) (h : Home)
    → let h' = scan_mailbox client label endpoint false a now later h in
      (h' ≡ h)
      ⊎ ((w : Work) × (h' ≡ write_state h label connection w)
          × ((box h' label).inbox ≡ (box h label).inbox)
          × (w.state ≡ retry)
          × (later + 2000 ≤ w.retry_at)
          × (w.retry_at ≤ later + 60000))
unfolding scan_mailbox connection_failed
scan_mailbox_backs_off client label endpoint a now later h =
    let state = read_delivery h label connection in
    elim (Bool-cases
      (not (is_mailbox endpoint.transport) || not (is_true endpoint.auto_delivery))) [
        | inl t ↦ inl (rw t refl)
        | inr f ↦ elim (Bool-cases (not (nonempty (pending_jobs h label)))) [
          | inl t ↦ inl (rw (f, t) refl)
          | inr g ↦ elim (Bool-cases (ltb now (work_retry_at state))) [
            | inl t ↦ inl (rw (f, g, t) refl)
            | inr k ↦
                let w = connection_failed state later in
                let (low, high) = connection_wait (work_attempts state) in
                inr (
                  w,
                  rw (f, g, k) refl,
                  rw (f, g, k) (box-write_state h label connection w),
                  refl,
                  omega (arith, low),
                  omega (arith, high),
                )
          ]
        ]
      ]
