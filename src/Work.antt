-- ===== src/Work.antt =====
-- The objects under delivery/<job_id>.json, which src/teammate_mcp/mailbox_worker.py writes.
use teammate_mcp.Base.{ℕ, Bool, true, false, Option, none, some}

pub data WorkState : Type 0 where
  waiting connected retry queued dispatching delivered uncertain failed processed : WorkState

-- Keys that are absent count as 0 where the code reads them.
pub record Work : Type 0 where
  pub state : WorkState
  pub attempts : ℕ
  pub retry_at : ℕ

-- `state in TERMINAL_STATES`
abbrev pub is_terminal : WorkState → Bool
is_terminal delivered = true
is_terminal dispatching = true
is_terminal uncertain = true
is_terminal failed = true
is_terminal processed = true
is_terminal _ = false

-- `read_delivery`: a missing file is `{}`
abbrev pub work_terminal : Option Work → Bool
work_terminal none = false
work_terminal (some w) = is_terminal w.state

abbrev pub work_retry_at : Option Work → ℕ
work_retry_at none = 0
work_retry_at (some w) = w.retry_at

abbrev pub work_attempts : Option Work → ℕ
work_attempts none = 0
work_attempts (some w) = w.attempts

-- An object with a state alone.
abbrev pub only : WorkState → Work
only s = record { state = s; attempts = 0; retry_at = 0 }
