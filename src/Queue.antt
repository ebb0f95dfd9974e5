-- ===== src/Queue.antt =====
-- src/teammate_mcp/queue.py: the file queue. A directory is a dict from the file's stem to its
-- content. The directory that holds the queue, its clean-up at exit and the JSON text are not
-- modelled. Times are milliseconds, and `hex` stands for the random part of an id.
pub mod Places
pub mod Lifecycle
pub mod Ids
pub mod Interleaved
use teammate_mcp.Base.{
  ltb, if◌then◌else◌, Eq, option_eq, nat_eq, text_eq, ℕ, zero, suc, ◌+◌, ◌-◌, ◌/◌, ◌%◌, ◌^◌, Bool,
  not, Option, none, some, List, [], ◌∷◌, ◌++◌, arith,
}
use teammate_mcp.Base.Text.{Text}
use teammate_mcp.Base.Dict.{Dict, get, put, pop}

-- `Message` of queue.py
pub record Job : Type 0 where
  pub id : Text
  pub from_agent : Text
  pub to_agent : Text
  pub question : Text
  pub created_at : ℕ
  pub priority : ℕ
  pub timeout : ℕ
  pub answer : Option Text
  pub completed_at : Option ℕ
  pub failed_reason : Option Text

pub record Queue : Type 0 where
  pub pending : Dict Job
  pub inflight : Dict Job
  pub done : Dict Job
  pub failed : Dict Job
  pub answers : Dict Text

abbrev pub empty_queue : Queue
empty_queue = record { pending = []; inflight = []; done = []; failed = []; answers = [] }

-- The last `k` decimal digits of a number below 10 ^ k.
unfoldable pub digits : ℕ → ℕ → Text
digits zero n = []
digits (suc k) n = (b'0' + n / 10 ^ k) ∷ digits k (n % 10 ^ k)

-- How many digits a number has.
unfoldable pub width : ℕ → ℕ → ℕ
width zero n = 1
width (suc fuel) n = let more = width fuel (n / 10) in if ltb n 10 then 1 else suc more

-- `f"{n:013d}"`
unfoldable pub padded : ℕ → Text
unfolding digits width
padded n = digits (if ltb n (10 ^ 13) then 13 else width n n) n

unfoldable pub message_id : ℕ → Text → Text
unfolding padded
message_id now hex = padded now ++ (b'-' ∷ hex)

unfoldable pub enqueue : Queue → ℕ → Text → Text → Text → Text → ℕ → ℕ → Job × Queue
unfolding message_id
enqueue q now hex from_agent to_agent question priority timeout =
    let job : Job = record {
      id = message_id now hex;
      from_agent = from_agent;
      to_agent = to_agent;
      question = question;
      created_at = now;
      priority = priority;
      timeout = timeout;
      answer = none;
      completed_at = none;
      failed_reason = none;
    } in
    (job, record q { pending = put q.pending job.id job })

-- `renames` is the answer of the file system where the source is there.
unfoldable pub claim : Queue → Text → Bool → Option Job × Queue
claim q id renames = elim (get q.pending id) [
  | none ↦ (none, q)
  | some job ↦
      if renames
      then (some job, record q { pending = pop q.pending id; inflight = put q.inflight id job })
      else (none, q)
]

-- What `complete` and `fail` do to the files, one call of the file system each; no lock is held
-- between them. Removing a file that is gone does nothing.
pub data Write : Type 0 where
  put_done put_failed : Text → Job → Write
  put_answer : Text → Text → Write
  remove_inflight remove_pending : Text → Write

abbrev pub perform : Queue → Write → Queue
perform q (put_done id job) = record q { done = put q.done id job }
perform q (put_failed id job) = record q { failed = put q.failed id job }
perform q (put_answer id answer) = record q { answers = put q.answers id answer }
perform q (remove_inflight id) = record q { inflight = pop q.inflight id }
perform q (remove_pending id) = record q { pending = pop q.pending id }

abbrev pub perform_all : Queue → List Write → Queue
perform_all q [] = q
perform_all q (w ∷ ws) = perform_all (perform q w) ws

-- The writes of a call, from the job that it reads.
unfoldable pub complete_writes : Queue → Text → Text → ℕ → List Write
complete_writes q id answer now = elim (get q.inflight id) [
  | none ↦ []
  | some job ↦
      put_done id (record job { answer = some answer; completed_at = some now })
      ∷ put_answer id answer
      ∷ remove_inflight id
      ∷ []
]

abbrev pub as_failed : Job → Text → ℕ → Job
as_failed job reason now = record job { failed_reason = some reason; completed_at = some now }

unfoldable pub fail_writes : Queue → Text → Text → ℕ → List Write
fail_writes q id reason now = elim (get q.inflight id) [
  | some job ↦ put_failed id (as_failed job reason now) ∷ remove_inflight id ∷ []
  | none ↦ elim (get q.pending id) [
    | none ↦ []
    | some job ↦ put_failed id (as_failed job reason now) ∷ remove_pending id ∷ []
  ]
]

-- A call that runs to its end, with no other between its writes.
unfoldable pub complete : Queue → Text → Text → ℕ → Queue
unfolding complete_writes
complete q id answer now = perform_all q (complete_writes q id answer now)

unfoldable pub fail : Queue → Text → Text → ℕ → Queue
unfolding fail_writes
fail q id reason now = perform_all q (fail_writes q id reason now)
