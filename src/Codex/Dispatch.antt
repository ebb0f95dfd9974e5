-- ===== src/Codex/Dispatch.antt =====
-- What a delivery may send, and what it reports of it.
use teammate_mcp.Base.{
  Bool-cases, Option-cases, ◌==◌, option_eq, nat_eq, text_eq, ◌≡◌, refl, sym, ap, ◌≢◌, ◌⊎◌, inl,
  inr, true, not, ◌||◌, Option, none, some, List, [], ◌∷◌, arith,
}
use teammate_mcp.Base.Text.{Text}
use teammate_mcp.Registry.{Policy, idle, immediate}
use teammate_mcp.Codex.{
  ThreadStatus, active, idle_thread, other_status, Thread, Turn, Answer, answered, rejected, broken,
  Peer, Failure, value_error, rpc_error, other_error, waiting, delivered, Result, ok, err, Input,
  start, steer, input_thread, input_client, Run, active_turn, client_id, stop, outcome_of,
  sent_after, send_input, steer_turn, by_status, on_thread, deliver,
}

module _ {D : Type 0} (peer : Peer) (before : D → Result (Unit {0}) × D)
    (thread_id text job_id : Text) where
  -- Nothing was sent and nothing is reported as delivered; or one input was sent, to the thread
  -- and under the job's client id, after the callback had passed, and the report is the server's
  -- answer to it.
  pub record IsCareful (disk : D) (r : Run D) : Type 0 where
    pub quiet : r.inputs ≡ [] → (t : Text) → r.result ≢ ok (delivered t)
    pub single :
        r.inputs ≢ []
        → (i : Input) × (r.inputs ≡ i ∷ [])
          × (input_thread i ≡ thread_id)
          × (input_client i ≡ client_id job_id)
          × (r.disk ≡ (before disk).1)
          × ((before disk).0 ≡ ok tt)
          × (r.result ≡ outcome_of peer before i peer.dispatch)

  stop_failed : (disk d : D) (e : Failure) → IsCareful disk (stop peer before (err e) d)
  stop_failed disk d e = record { quiet = λ q t h. cc; single = λ n. absurd (n refl) }

  stop_waiting : (disk : D) → IsCareful disk (stop peer before (ok waiting) disk)
  stop_waiting disk = record { quiet = λ q t h. cc; single = λ n. absurd (n refl) }

  sent-IsCareful :
      (i : Input) (disk : D) (p : Result (Unit {0}) × D)
      → before disk ≡ p
      → input_thread i ≡ thread_id
      → input_client i ≡ client_id job_id
      → IsCareful disk (sent_after peer before i p)
  sent-IsCareful i disk (ok tt, d) e to under = record {
    quiet = λ q t h. absurd (cc q);
    single = λ n. (i, refl, to, under, ap (λ x. x.1) (sym e), ap (λ x. x.0) e, refl);
  }
  sent-IsCareful i disk (err f, d) e to under = stop_failed disk d f

  send-IsCareful :
      (i : Input) (disk : D)
      → input_thread i ≡ thread_id
      → input_client i ≡ client_id job_id
      → IsCareful disk (send_input peer before i disk)
  unfolding send_input
  send-IsCareful i disk to under = sent-IsCareful i disk (before disk) refl to under

  steer-IsCareful :
      (a : Answer (List Turn)) (disk : D)
      → IsCareful disk (steer_turn peer before thread_id text job_id a disk)
  steer-IsCareful rejected disk = stop_failed disk disk rpc_error
  steer-IsCareful broken disk = stop_failed disk disk other_error
  steer-IsCareful (answered turns) disk = elim (Option-cases (active_turn turns)) [
    | inl e ↦ rw (e, steer_turn) (stop_waiting disk)
    | inr (t, e) ↦
        rw (e, steer_turn)
          (send-IsCareful (steer thread_id text (client_id job_id) t.id) disk refl refl)
  ]

  status-IsCareful :
      (policy : Policy) (s : ThreadStatus) (disk : D)
      → IsCareful disk (by_status peer before policy s thread_id text job_id disk)
  status-IsCareful idle active disk = stop_waiting disk
  status-IsCareful immediate active disk = steer-IsCareful peer.turns_list disk
  status-IsCareful idle idle_thread disk =
      send-IsCareful (start thread_id text (client_id job_id)) disk refl refl
  status-IsCareful immediate idle_thread disk =
      send-IsCareful (start thread_id text (client_id job_id)) disk refl refl
  status-IsCareful idle other_status disk = stop_failed disk disk value_error
  status-IsCareful immediate other_status disk = stop_failed disk disk value_error

  thread-IsCareful :
      (policy : Policy) (a : Answer Thread) (disk : D)
      → IsCareful disk (on_thread peer before policy a thread_id text job_id disk)
  thread-IsCareful policy rejected disk = stop_failed disk disk rpc_error
  thread-IsCareful policy broken disk = stop_failed disk disk other_error
  thread-IsCareful policy (answered t) disk =
      elim (Bool-cases (not (t.id == some thread_id) || not t.accepts_input)) [
        | inl e ↦ rw e (stop_failed disk disk value_error)
        | inr e ↦ rw e (status-IsCareful policy t.status disk)
      ]

  -- Every delivery sends at most one input, to the thread that was asked for and under the job's
  -- client id, only after the callback before the dispatch has passed. It reports the server's
  -- answer to that input, and a delivery that sends nothing never reports a turn.
  pub deliver-IsCareful :
      (policy : Option Policy) (disk : D)
      → IsCareful disk (deliver peer before thread_id text job_id policy disk)
  unfolding deliver
  deliver-IsCareful none disk = stop_failed disk disk value_error
  deliver-IsCareful (some policy) disk = thread-IsCareful policy peer.thread_read disk

  -- The turn in progress that the server lists.
  abbrev pub HasTurn : Type 0
  HasTurn =
      (ts : List Turn) × (turn : Turn) × (peer.turns_list ≡ answered ts)
      × (active_turn ts ≡ some turn)

  abbrev pub MayReceive : Policy → ThreadStatus → Type 0
  MayReceive policy s = (s ≡ idle_thread) ⊎ ((s ≡ active) × (policy ≡ immediate) × HasTurn)

  abbrev pub IsAddressed : Policy → Type 0
  IsAddressed policy =
      (t : Thread) × (peer.thread_read ≡ answered t)
      × (t.id ≡ some thread_id)
      × (t.accepts_input ≡ true)
      × MayReceive policy t.status

  turn_found :
      (a : Answer (List Turn)) (disk : D)
      → peer.turns_list ≡ a
      → (steer_turn peer before thread_id text job_id a disk).inputs ≢ []
      → HasTurn
  turn_found rejected disk e m = absurd (m refl)
  turn_found broken disk e m = absurd (m refl)
  turn_found (answered ts) disk e m = elim (Option-cases (active_turn ts)) [
    | inl none_found ↦ absurd (m (rw (none_found, steer_turn)))
    | inr (turn, found) ↦ (ts, turn, e, found)
  ]

  by_status_addressed :
      (p : Policy) (s : ThreadStatus) (disk : D)
      → (by_status peer before p s thread_id text job_id disk).inputs ≢ []
      → MayReceive p s
  by_status_addressed idle active disk m = absurd (m refl)
  by_status_addressed immediate active disk m =
      inr (refl, refl, turn_found peer.turns_list disk refl m)
  by_status_addressed p idle_thread disk m = inl refl
  by_status_addressed idle other_status disk m = absurd (m refl)
  by_status_addressed immediate other_status disk m = absurd (m refl)

  on_thread-IsAddressed :
      (policy : Policy) (a : Answer Thread) (disk : D)
      → peer.thread_read ≡ a
      → (on_thread peer before policy a thread_id text job_id disk).inputs ≢ []
      → IsAddressed policy
  on_thread-IsAddressed policy rejected disk e m = absurd (m refl)
  on_thread-IsAddressed policy broken disk e m = absurd (m refl)
  on_thread-IsAddressed policy (answered t) disk e m =
      elim (Bool-cases (not (t.id == some thread_id) || not t.accepts_input)) [
        | inl x ↦ absurd (m (rw (x, on_thread)))
        | inr x ↦ (
          t,
          e,
          ground (arith, x),
          ground (arith, x),
          by_status_addressed policy t.status disk (rw (x, on_thread) at m),
        )
      ]

  -- Input reaches only a thread that is the one asked for and accepts input. A busy thread gets
  -- none under the idle policy, and under the immediate one only if it has a turn in progress.
  pub deliver-IsAddressed :
      (policy : Policy) (disk : D)
      → (deliver peer before thread_id text job_id (some policy) disk).inputs ≢ []
      → IsAddressed policy
  unfolding deliver
  deliver-IsAddressed policy disk n = on_thread-IsAddressed policy peer.thread_read disk refl n
