-- ===== src/Queue/Places.antt =====
-- src/teammate_mcp/queue.py: the directories that hold a job.
use teammate_mcp.Base.{
  if◌then◌else◌, Option-cases, is_some, ◌==◌, option_eq, nat_eq, text_eq, ℕ, ◌+◌, ◌≤◌, ◌≡◌, inl,
  inr, Bool, false, none, some, arith,
}
use teammate_mcp.Base.Text.{Text}
use teammate_mcp.Base.Dict.{Dict, get, get-put, get-pop}
use teammate_mcp.Queue.{Job, Queue, message_id, enqueue, claim, complete, as_failed, fail}

abbrev pub holds : Dict Job → Text → ℕ
holds d id = if is_some (get d id) then 1 else 0

-- In how many directories a job is.
abbrev pub places : Queue → Text → ℕ
places q id = holds q.pending id + holds q.inflight id + holds q.done id + holds q.failed id

-- The operations of the queue on the files.
pub data Op : Type 0 where
  do_enqueue : ℕ → Text → Text → Text → Text → ℕ → ℕ → Op
  do_claim : Text → Bool → Op
  do_complete : Text → Text → ℕ → Op
  do_fail : Text → Text → ℕ → Op

unfoldable pub apply : Queue → Op → Queue
apply q (do_enqueue now hex from_agent to_agent question priority timeout) =
    (enqueue q now hex from_agent to_agent question priority timeout).1
apply q (do_claim id renames) = (claim q id renames).1
apply q (do_complete id answer now) = complete q id answer now
apply q (do_fail id reason now) = fail q id reason now

-- The id of an enqueued job is new.
abbrev pub IsFresh : Queue → Op → Type 0
IsFresh q (do_enqueue now hex from_agent to_agent question priority timeout) =
    places q (message_id now hex) ≡ 0
IsFresh q op = Unit

abbrev pub enqueues : Op → Text → Bool
enqueues (do_enqueue now hex from_agent to_agent question priority timeout) id =
    message_id now hex == id
enqueues op id = false

places-claim :
    (q : Queue) (id j : Text) (renames : Bool)
    → places q j ≤ 1
    → places (claim q id renames).1 j ≡ places q j
unfolding claim
places-claim q id j renames h = elim (Option-cases (get q.pending id)) [
  | inl e ↦ ground (arith, e)
  | inr (job, e) ↦ ground (arith, e, h, get-pop q.pending id j, get-put q.inflight id j job)
]

places-complete :
    (q : Queue) (id answer j : Text) (now : ℕ)
    → places q j ≤ 1
    → places (complete q id answer now) j ≡ places q j
unfolding complete
places-complete q id answer j now h = elim (Option-cases (get q.inflight id)) [
  | inl e ↦ ground (arith, e)
  | inr (job, e) ↦ ground (
    arith,
    e,
    h,
    get-pop q.inflight id j,
    get-put q.done id j (record job { answer = some answer; completed_at = some now }),
  )
]

places-fail :
    (q : Queue) (id reason j : Text) (now : ℕ)
    → places q j ≤ 1
    → places (fail q id reason now) j ≡ places q j
unfolding fail
places-fail q id reason j now h = elim (Option-cases (get q.inflight id)) [
  | inr (job, e) ↦
      ground
        (arith, e, h, get-pop q.inflight id j, get-put q.failed id j (as_failed job reason now))
  | inl e ↦ elim (Option-cases (get q.pending id)) [
    | inl f ↦ ground (arith, e, f)
    | inr (job, f) ↦
        ground
          (arith, e, f, h, get-pop q.pending id j, get-put q.failed id j (as_failed job reason now))
  ]
]

-- An operation moves jobs between directories: each job stays in as many of them as before, but
-- for the one that is enqueued, which is then in one.
pub places-apply :
    (q : Queue) (op : Op) (j : Text)
    → ((k : Text) → places q k ≤ 1)
    → IsFresh q op
    → places (apply q op) j ≡ (if enqueues op j then 1 else places q j)
unfolding apply enqueue
places-apply q (do_enqueue now hex from_agent to_agent question priority timeout) j h fresh =
    ground (
      arith,
      fresh,
      get-put q.pending (message_id now hex) j (record {
        id = message_id now hex;
        from_agent = from_agent;
        to_agent = to_agent;
        question = question;
        created_at = now;
        priority = priority;
        timeout = timeout;
        answer = none;
        completed_at = none;
        failed_reason = none;
      }),
    )
places-apply q (do_claim id renames) j h fresh = places-claim q id j renames (h j)
places-apply q (do_complete id answer now) j h fresh = places-complete q id answer j now (h j)
places-apply q (do_fail id reason now) j h fresh = places-fail q id reason j now (h j)

-- The queues that operations with new ids lead to.
pub data Reach (q : Queue) : Queue → Type 0 where
  here : Reach q q
  next : {r : Queue} → Reach q r → (op : Op) → IsFresh r op → Reach q (apply r op)

abbrev pub IsSingle : Queue → Type 0
IsSingle q = (j : Text) → places q j ≤ 1

-- Where calls run to their end one after another, a queue in which each job is in one directory at
-- most stays such a queue, and a job that is in it stays in exactly one directory.
pub Reach-IsSingle :
    {q r : Queue}
    → IsSingle q
    → Reach q r
    → IsSingle r × ((j : Text) → places q j ≡ 1 → places r j ≡ 1)
Reach-IsSingle s here = (s, λ j e. e)
Reach-IsSingle s (next {r = r} path op fresh) =
    let (single, kept) = Reach-IsSingle s path in
    (
      λ j. ground (arith, places-apply r op j single fresh, single j),
      λ j e. ground (arith, places-apply r op j single fresh, kept j e),
    )

-- A claim is exclusive: whoever gets the job takes it out of `pending`, and a second claim of it
-- gets nothing and changes nothing.
pub claim_exclusive :
    (q : Queue) (id : Text) (job : Job) (first_renames second_renames : Bool)
    → (claim q id first_renames).0 ≡ some job
    → let q' = (claim q id first_renames).1 in
      (get q.pending id ≡ some job)
      × (get q'.inflight id ≡ some job)
      × (claim q' id second_renames ≡ (none, q'))
unfolding claim
claim_exclusive q id job first_renames second_renames h = elim (Option-cases (get q.pending id)) [
  | inl e ↦ absurd (ground (arith, e, h))
  | inr (j, e) ↦ (
    ground (arith, e, h),
    ground (arith, e, h, get-put q.inflight id id j),
    ground (arith, e, h, get-pop q.pending id id),
  )
]

-- A job that was never claimed is not completed: `complete` leaves the queue as it is.
pub complete_unclaimed :
    (q : Queue) (id answer : Text) (now : ℕ)
    → get q.inflight id ≡ none
    → complete q id answer now ≡ q
unfolding complete
complete_unclaimed q id answer now e = ground (arith, e)
