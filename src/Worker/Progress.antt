-- ===== src/Worker/Progress.antt =====
-- src/teammate_mcp/mailbox_worker.py: an attempt on a due message.
use teammate_mcp.Base.{
  is_some, ◌==◌, ==_refl, option_eq, nat_eq, text_eq, ◌≡◌, refl, true, false, not, ◌&&◌, some, [],
  ◌∷◌, arith,
}
use teammate_mcp.Base.Text.{Text}
use teammate_mcp.Base.Dict.{get}
use teammate_mcp.Registry.{nonempty, Rec, rec_eq, Policy, idle, immediate}
use teammate_mcp.Work.{WorkState, dispatching, only}
use teammate_mcp.Mailbox.{Message, Home, box}
use teammate_mcp.Codex
use teammate_mcp.Codex.{
  ThreadStatus, active, idle_thread, other_status, Thread, Turn, Response, Answer, answered,
  rejected, broken, Peer, Failure, value_error, rpc_error, other_error, already_processed,
  Delivered, waiting, delivered, Result, ok, err, Input, start, steer, input_thread, input_client,
  Run, active_turn, client_id, accepted, answer_id, stop, outcome_of, sent_after, send_input,
  steer_turn, by_status, on_thread, deliver,
}
use teammate_mcp.Worker.{
  Attempt, read_delivery, write_state, turn_text, is_true, dispatching_step, settle, policy_or_idle,
  send_record, deliver_record,
}
use teammate_mcp.Worker.Safety.{read_delivery-write_state, IsDue}

-- The server shows the thread, idle and open for input, and answers a dispatch with a turn's id.
pub record IsWilling (peer : Peer) (thread_id turn : Text) : Type 0 where
  pub shown :
      peer.thread_read
      ≡ answered (record { id = some thread_id; accepts_input = true; status = idle_thread })
  pub response : Codex.Response
  pub taken : peer.dispatch ≡ answered response
  pub turned : response.turn ≡ some turn
  pub named : nonempty turn ≡ true

accepted_named :
    (t : Text) → nonempty t ≡ true → accepted (some t) ≡ Codex.Result.ok (Delivered.delivered t)
accepted_named [] n = absurd (cc n)
accepted_named (c ∷ s) n = refl

-- What a willing server makes of a delivery whose callback passes.
module _ {D : Type 0} (peer : Peer) (before : D → Codex.Result (Unit {0}) × D)
    (thread_id text job_id turn : Text) (disk disk' : D) where
  abbrev delivered_run : Run D
  delivered_run = record {
    result = Codex.Result.ok (Delivered.delivered turn);
    disk = disk';
    inputs = start thread_id text (client_id job_id) ∷ [];
  }

  start_willing :
      IsWilling peer thread_id turn
      → before disk ≡ (Codex.Result.ok tt, disk')
      → send_input peer before (start thread_id text (client_id job_id)) disk ≡ delivered_run
  unfolding send_input
  start_willing w b = rw (b, w.taken, w.turned, accepted_named turn w.named) refl

  deliver_willing :
      (policy : Policy)
      → IsWilling peer thread_id turn
      → before disk ≡ (Codex.Result.ok tt, disk')
      → deliver peer before thread_id text job_id (some policy) disk ≡ delivered_run
  unfolding deliver
  deliver_willing idle w b = rw (w.shown, ==_refl) (start_willing w b)
  deliver_willing immediate w b = rw (w.shown, ==_refl) (start_willing w b)

module _ (client : Text) (h : Home) (label job_id : Text) (endpoint : Rec) (a : Attempt) where
  -- The receipt lock is free, and the message and the endpoint are still there, unchanged.
  pub record IsSteady : Type 0 where
    pub free : a.receipt_free ≡ true
    pub kept : is_some (get (box (a.meanwhile h) label).inbox job_id) ≡ true
    pub same :
        (is_true endpoint.auto_delivery
          && not (get (a.meanwhile h).registry label == some endpoint))
        ≡ false

  dispatching_step_steady :
      IsSteady
      → dispatching_step label job_id endpoint a.receipt_free (a.meanwhile h)
        ≡ (Codex.Result.ok tt, write_state (a.meanwhile h) label job_id (only dispatching))
  unfolding dispatching_step
  dispatching_step_steady s = rw (s.free, s.kept, s.same) refl

  send_record_willing :
      (thread_id turn : Text) (m : Message)
      → IsSteady
      → IsWilling a.peer thread_id turn
      → send_record client h label job_id endpoint thread_id m a ≡ record {
        home =
            write_state
              (a.afterwards (write_state (a.meanwhile h) label job_id (only dispatching)))
              label
              job_id
              (only WorkState.delivered);
        inputs = start thread_id (turn_text client label job_id m) (client_id job_id) ∷ [];
        raised = false;
      }
  unfolding send_record settle
  send_record_willing thread_id turn m s w =
      rw
        (deliver_willing a.peer (dispatching_step label job_id endpoint a.receipt_free) thread_id
          (turn_text client label job_id m) job_id turn (a.meanwhile h)
          (write_state (a.meanwhile h) label job_id (only dispatching))
          (policy_or_idle endpoint.delivery_policy) w (dispatching_step_steady s))
        refl

  due_record :
      (thread_id : Text) (m : Message)
      → IsDue client h label job_id endpoint a thread_id m
      → deliver_record client h label job_id endpoint a
        ≡ send_record client h label job_id endpoint thread_id m a
  unfolding deliver_record
  due_record thread_id m (l, t, r, e, i, o) = ground (arith, l, t, r, e, i, o)

  -- An attempt on a message that is due and addressed to the endpoint's thread, with both locks
  -- free, the message and the endpoint still in place at the dispatch, and a server that shows the
  -- thread idle and open and answers with a turn's id, delivers: it raises nothing, starts exactly
  -- one turn on that thread, with the message's text, and leaves the message `delivered`.
  pub due_is_delivered :
      (thread_id turn : Text) (m : Message)
      → IsDue client h label job_id endpoint a thread_id m
      → IsSteady
      → IsWilling a.peer thread_id turn
      → let r = deliver_record client h label job_id endpoint a in
        (r.raised ≡ false)
        × (r.inputs ≡ start thread_id (turn_text client label job_id m) (client_id job_id) ∷ [])
        × (read_delivery r.home label job_id ≡ some (only WorkState.delivered))
  due_is_delivered thread_id turn m d s w =
      rw (due_record thread_id m d, send_record_willing thread_id turn m s w)
        (refl, refl, read_delivery-write_state _ label job_id _)
