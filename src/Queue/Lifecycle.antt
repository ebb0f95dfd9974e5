-- ===== src/Queue/Lifecycle.antt =====
-- The queue as a state machine of each job, which forgets the directories and their order.
use teammate_mcp.Base.{
  if◌then◌else◌, Option-cases, is_some, ◌==◌, option_eq, nat_eq, text_eq, ℕ, ◌≤◌, ◌≡◌, refl, ap,
  ◌∙◌, inl, inr, Bool, true, some, List, [], ◌∷◌, arith,
}
use teammate_mcp.Base.Text.{Text}
use teammate_mcp.Base.Dict.{get, get-put, get-pop}
use teammate_mcp.Queue.{Queue, message_id, enqueue, claim, complete, as_failed, fail}
use teammate_mcp.Queue.Places.{
  places, Op, do_enqueue, do_claim, do_complete, do_fail, apply, IsFresh, here, next, IsSingle,
  Reach-IsSingle,
}

pub data Stage : Type 0 where
  absent pending inflight done failed : Stage

-- The specification: what an operation does to one job.
abbrev pub claimed : Bool → Stage → Stage
claimed true pending = inflight
claimed _ s = s

abbrev pub completed : Stage → Stage
completed inflight = done
completed s = s

abbrev pub given_up : Stage → Stage
given_up inflight = failed
given_up pending = failed
given_up s = s

abbrev pub spec_step : Op → Text → Stage → Stage
spec_step (do_enqueue now hex from_agent to_agent question priority timeout) j s =
    if message_id now hex == j then pending else s
spec_step (do_claim id renames) j s = if id == j then claimed renames s else s
spec_step (do_complete id answer now) j s = if id == j then completed s else s
spec_step (do_fail id reason now) j s = if id == j then given_up s else s

abbrev pub spec_run : List Op → Text → Stage → Stage
spec_run [] j s = s
spec_run (op ∷ ops) j s = spec_run ops j (spec_step op j s)

-- The stage that the directories show.
abbrev pub stage : Queue → Text → Stage
stage q j =
    if is_some (get q.pending j)
    then pending
    else if is_some (get q.inflight j)
    then inflight
    else if is_some (get q.done j)
    then done
    else if is_some (get q.failed j)
    then failed
    else absent

abbrev pub apply_all : Queue → List Op → Queue
apply_all q [] = q
apply_all q (op ∷ ops) = apply_all (apply q op) ops

abbrev pub AllFresh : Queue → List Op → Type 0
AllFresh q [] = Unit
AllFresh q (op ∷ ops) = IsFresh q op × AllFresh (apply q op) ops

stage-claim :
    (q : Queue) (id j : Text) (renames : Bool)
    → places q j ≤ 1
    → stage (claim q id renames).1 j ≡ (if id == j then claimed renames (stage q j) else stage q j)
unfolding claim
stage-claim q id j renames h = elim (Option-cases (get q.pending id)) [
  | inl e ↦ ground (arith, e, h)
  | inr (job, e) ↦ ground (arith, e, h, get-pop q.pending id j, get-put q.inflight id j job)
]

stage-complete :
    (q : Queue) (id answer j : Text) (now : ℕ)
    → places q j ≤ 1
    → stage (complete q id answer now) j ≡ (if id == j then completed (stage q j) else stage q j)
unfolding complete
stage-complete q id answer j now h = elim (Option-cases (get q.inflight id)) [
  | inl e ↦ ground (arith, e, h)
  | inr (job, e) ↦ ground (
    arith,
    e,
    h,
    get-pop q.inflight id j,
    get-put q.done id j (record job { answer = some answer; completed_at = some now }),
  )
]

stage-fail :
    (q : Queue) (id reason j : Text) (now : ℕ)
    → places q j ≤ 1
    → stage (fail q id reason now) j ≡ (if id == j then given_up (stage q j) else stage q j)
unfolding fail
stage-fail q id reason j now h = elim (Option-cases (get q.inflight id)) [
  | inr (job, e) ↦
      ground
        (arith, e, h, get-pop q.inflight id j, get-put q.failed id j (as_failed job reason now))
  | inl e ↦ elim (Option-cases (get q.pending id)) [
    | inl f ↦ ground (arith, e, f, h)
    | inr (job, f) ↦
        ground
          (arith, e, f, h, get-pop q.pending id j, get-put q.failed id j (as_failed job reason now))
  ]
]

stage-enqueue :
    (q : Queue) (now : ℕ) (hex from_agent to_agent question : Text) (priority timeout : ℕ)
    (j : Text)
    → stage (enqueue q now hex from_agent to_agent question priority timeout).1 j
      ≡ (if message_id now hex == j then pending else stage q j)
unfolding enqueue
stage-enqueue q now hex from_agent to_agent question priority timeout j = ground (
  arith,
  get-put q.pending (message_id now hex) j
      (enqueue q now hex from_agent to_agent question priority timeout).0,
)

-- One operation does to each job what the specification says.
stage-apply :
    (q : Queue) (op : Op) (j : Text)
    → IsSingle q
    → stage (apply q op) j ≡ spec_step op j (stage q j)
unfolding apply
stage-apply q (do_enqueue now hex from_agent to_agent question priority timeout) j s =
    stage-enqueue q now hex from_agent to_agent question priority timeout j
stage-apply q (do_claim id renames) j s = stage-claim q id j renames (s j)
stage-apply q (do_complete id answer now) j s = stage-complete q id answer j now (s j)
stage-apply q (do_fail id reason now) j s = stage-fail q id reason j now (s j)

-- The directories refine the specification: over any operations with new ids, each job goes
-- through the stages of its own machine, whatever happens to the other jobs.
pub stage-apply_all :
    (q : Queue) (ops : List Op) (j : Text)
    → IsSingle q
    → AllFresh q ops
    → stage (apply_all q ops) j ≡ spec_run ops j (stage q j)
stage-apply_all q [] j s f = refl
stage-apply_all q (op ∷ ops) j s (f, fs) =
    stage-apply_all (apply q op) ops j (λ i. (Reach-IsSingle s (next here op f)).0 i) fs
    ∙ ap (spec_run ops j) (stage-apply q op j s)
