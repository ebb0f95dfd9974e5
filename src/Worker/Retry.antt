-- ===== src/Worker/Retry.antt =====
-- src/teammate_mcp/mailbox_worker.py: the retries of the worker.
use teammate_mcp.Base.{
  option_eq, nat_eq, text_eq, length, All, ℕ, ◌+◌, ◌*◌, ◌^◌, ◌≤◌, ◌≡◌, refl, ◌≢◌, ◌⊎◌, inl, inr,
  Bool, true, false, Option, some, List, [], ◌∷◌, arith,
}
use teammate_mcp.Work.{retry, Work, is_terminal, work_terminal, work_attempts}
use teammate_mcp.Codex
use teammate_mcp.Codex.{
  ThreadStatus, active, other_status, Thread, Turn, Answer, answered, rejected, broken, Peer,
  Failure, value_error, rpc_error, other_error, already_processed, Delivered, Result, Input, start,
  steer, input_thread, input_client, Run, active_turn, client_id, accepted, answer_id, stop,
  outcome_of, sent_after, send_input, steer_turn, by_status, on_thread, deliver,
}
use teammate_mcp.Worker.{is_dispatching, settle}

-- A state that asks for a retry was reached by at most two failures in a row, neither a
-- `ValueError` nor after a dispatch that was not rejected; the next attempt waits 2 or 4 seconds.
pub retry_backs_off :
    (state on_disk : Option Work) (r : Codex.Result Delivered) (later : ℕ)
    → (settle state on_disk r later).state ≡ retry
    → let w = settle state on_disk r later in
      (w.attempts ≡ work_attempts state + 1)
      × (w.attempts ≤ 2)
      × (w.retry_at ≡ later + 1000 * 2 ^ w.attempts)
      × (r ≢ Codex.Result.err value_error)
      × ((is_dispatching on_disk ≡ false) ⊎ (r ≡ Codex.Result.err rpc_error))
unfolding settle
retry_backs_off state on_disk (Codex.Result.ok Delivered.waiting) later h = absurd (cc h)
retry_backs_off state on_disk (Codex.Result.ok (Delivered.delivered t)) later h = absurd (cc h)
retry_backs_off state on_disk (Codex.Result.err value_error) later h = absurd (ground (arith, h))
retry_backs_off state on_disk (Codex.Result.err rpc_error) later h =
    (refl, ground (arith, h), refl, λ e. cc, inr refl)
retry_backs_off state on_disk (Codex.Result.err other_error) later h =
    (refl, ground (arith, h), refl, λ e. cc, inl (ground (arith, h)))
retry_backs_off state on_disk (Codex.Result.err already_processed) later h = absurd (cc h)

-- A failed attempt: what it raised, the state then on disk, and the time.
pub record Failing : Type 0 where
  pub error : Failure
  pub on_disk : Option Work
  pub later : ℕ

abbrev pub is_processed : Failure → Bool
is_processed already_processed = true
is_processed _ = false

-- The state after failures in a row.
abbrev pub fail_all : Option Work → List Failing → Option Work
fail_all state [] = state
fail_all state (f ∷ fs) =
    fail_all (some (settle state f.on_disk (Codex.Result.err f.error) f.later)) fs

fail_once :
    (state : Option Work) (f : Failing)
    → is_processed f.error ≡ false
    → let w = settle state f.on_disk (Codex.Result.err f.error) f.later in
      (w.attempts ≡ work_attempts state + 1) × (3 ≤ w.attempts → is_terminal w.state ≡ true)
unfolding settle
fail_once state f n = go f.error n
  where
    go :
        (e : Failure)
        → is_processed e ≡ false
        → let w = settle state f.on_disk (Codex.Result.err e) f.later in
          (w.attempts ≡ work_attempts state + 1) × (3 ≤ w.attempts → is_terminal w.state ≡ true)
    go value_error m = (refl, λ h. ground arith)
    go rpc_error m = (refl, λ h. ground arith)
    go other_error m = (refl, λ h. ground arith)
    go already_processed m = absurd (cc m)

-- Failures in a row, with no wait for a busy thread between them and none because the message was
-- already processed, leave a final state once they are three, those before counted in.
pub fail_all_ends :
    (state : Option Work) (fs : List Failing) (f : Failing)
    → All (λ g. is_processed g.error ≡ false) (f ∷ fs)
    → 2 ≤ work_attempts state + length fs
    → work_terminal (fail_all state (f ∷ fs)) ≡ true
fail_all_ends state [] f (n, ns) h =
    let (count, final) = fail_once state f n in final (omega (arith, count))
fail_all_ends state (g ∷ fs) f (n, ns) h =
    fail_all_ends (some (settle state f.on_disk (Codex.Result.err f.error) f.later)) fs g ns
      (omega (arith, (fail_once state f n).0))
