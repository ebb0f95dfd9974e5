-- ===== src/Codex.antt =====
-- `deliver` of src/teammate_mcp/codex_transport.py. The app-server is not part of this program:
-- its answers are the parameter `peer`, and what was sent to it as input is a log. The callback
-- before the dispatch works on a state `D` and may fail.
pub mod Dispatch
use teammate_mcp.Base.{
  if◌then◌else◌, Eq, ◌==◌, option_eq, nat_eq, text_eq, first, ◌+◌, ◌-◌, ◌/◌, Bool, not, ◌||◌,
  Option, none, some, List, [], ◌∷◌, ◌++◌, arith,
}
use teammate_mcp.Base.Text.{Text, str}
use teammate_mcp.Registry.{Policy, idle, immediate}

pub data ThreadStatus : Type 0 where
  active idle_thread other_status : ThreadStatus

pub record Thread : Type 0 where
  pub id : Option Text
  pub accepts_input : Bool
  pub status : ThreadStatus

pub record Turn : Type 0 where
  pub id : Text
  pub in_progress : Bool

-- The answer to `turn/steer` holds a turn id, that to `turn/start` a turn with an id.
pub record Response : Type 0 where
  pub turn_id : Option Text
  pub turn : Option Text

-- A request is answered, rejected by the server (`RPCError`), or fails otherwise.
pub data Answer {ℓ} (A : Type ℓ) : Type ℓ where
  answered : A → Answer A
  rejected : Answer A
  broken : Answer A

pub record Peer : Type 0 where
  pub thread_read : Answer Thread
  pub turns_list : Answer (List Turn)
  pub dispatch : Answer Response

pub data Failure : Type 0 where
  value_error rpc_error other_error already_processed : Failure

pub data Delivered : Type 0 where
  waiting : Delivered
  delivered : Text → Delivered

pub data Result {ℓ} (A : Type ℓ) : Type ℓ where
  ok : A → Result A
  err : Failure → Result A

-- The input requests: thread, text and client message id, and the expected turn of a steer.
pub data Input : Type 0 where
  start : Text → Text → Text → Input
  steer : Text → Text → Text → Text → Input

abbrev pub input_thread : Input → Text
input_thread (start t x c) = t
input_thread (steer t x c e) = t

abbrev pub input_client : Input → Text
input_client (start t x c) = c
input_client (steer t x c e) = c

pub record Run (D : Type 0) : Type 0 where
  pub result : Result Delivered
  pub disk : D
  pub inputs : List Input

-- `next((t for t in turns if t.get("status") == "inProgress"), None)`
abbrev pub active_turn : List Turn → Option Turn
active_turn = first (λ t. t.in_progress)

abbrev pub client_id : Text → Text
client_id job_id = str "teammate-" ++ job_id

-- The id in the answer, if there is one that is not empty.
abbrev pub accepted : Option Text → Result Delivered
accepted none = err other_error
accepted (some []) = err other_error
accepted (some (c ∷ s)) = ok (delivered (c ∷ s))

abbrev pub answer_id : Input → Response → Option Text
answer_id (start t x c) r = r.turn
answer_id (steer t x c e) r = r.turn_id

module _ {D : Type 0} (peer : Peer) (before_dispatch : D → Result (Unit {0}) × D) where
  abbrev pub stop : Result Delivered → D → Run D
  stop r disk = record { result = r; disk = disk; inputs = [] }

  abbrev pub outcome_of : Input → Answer Response → Result Delivered
  outcome_of i (answered r) = accepted (answer_id i r)
  outcome_of i rejected = err rpc_error
  outcome_of i broken = err other_error

  abbrev pub sent_after : Input → Result (Unit {0}) × D → Run D
  sent_after i (ok u, disk) = record {
    result = outcome_of i peer.dispatch;
    disk = disk;
    inputs = i ∷ [];
  }
  sent_after i (err e, disk) = stop (err e) disk

  unfoldable pub send_input : Input → D → Run D
  send_input i disk = sent_after i (before_dispatch disk)

  abbrev pub steer_turn : Text → Text → Text → Answer (List Turn) → D → Run D
  steer_turn thread_id text job_id rejected disk = stop (err rpc_error) disk
  steer_turn thread_id text job_id broken disk = stop (err other_error) disk
  steer_turn thread_id text job_id (answered turns) disk = elim (active_turn turns) [
    | none ↦ stop (ok waiting) disk
    | some turn ↦ send_input (steer thread_id text (client_id job_id) turn.id) disk
  ]

  abbrev pub by_status : Policy → ThreadStatus → Text → Text → Text → D → Run D
  by_status idle active thread_id text job_id disk = stop (ok waiting) disk
  by_status immediate active thread_id text job_id disk =
      steer_turn thread_id text job_id peer.turns_list disk
  by_status policy idle_thread thread_id text job_id disk =
      send_input (start thread_id text (client_id job_id)) disk
  by_status policy other_status thread_id text job_id disk = stop (err value_error) disk

  abbrev pub on_thread : Policy → Answer Thread → Text → Text → Text → D → Run D
  on_thread policy rejected thread_id text job_id disk = stop (err rpc_error) disk
  on_thread policy broken thread_id text job_id disk = stop (err other_error) disk
  on_thread policy (answered thread) thread_id text job_id disk =
      if not (thread.id == some thread_id) || not thread.accepts_input
      then stop (err value_error) disk
      else by_status policy thread.status thread_id text job_id disk

  -- `none` stands for a policy that is neither "idle" nor "immediate".
  unfoldable pub deliver : Text → Text → Text → Option Policy → D → Run D
  unfolding send_input
  deliver thread_id text job_id none disk = stop (err value_error) disk
  deliver thread_id text job_id (some policy) disk =
      on_thread policy peer.thread_read thread_id text job_id disk
