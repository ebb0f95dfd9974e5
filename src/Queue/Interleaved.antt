-- ===== src/Queue/Interleaved.antt =====
-- src/teammate_mcp/queue.py: calls of several processes at once, whose writes interleave, and which
-- may stop between any two of them.
use teammate_mcp.Base.{
  Option-cases, is_some, ◌==◌, option_eq, nat_eq, text_eq, All, ℕ, zero, suc, ◌≡◌, inl, inr, Bool,
  true, ◌||◌, Option, none, some, List, [], ◌∷◌, arith,
}
use teammate_mcp.Base.Text.{Text}
use teammate_mcp.Base.Dict.{get, get-put, get-pop}
use teammate_mcp.Queue.{
  Queue, enqueue, message_id, claim, Write, put_done, put_failed, put_answer, remove_inflight,
  remove_pending, perform, complete_writes, fail_writes,
}

-- The files, and the writes that each call under way still has to do.
pub record System : Type 0 where
  pub queue : Queue
  pub calls : List (List Write)

abbrev pub idle_system : Queue → System
idle_system q = record { queue = q; calls = [] }

-- What can happen next. `writes` and `stops` name a call by its number; a stop is a crash, or an
-- error of the file system.
pub data Event : Type 0 where
  enqueues : ℕ → Text → Text → Text → Text → ℕ → ℕ → Event
  claims : Text → Bool → Event
  begins_complete begins_fail : Text → Text → ℕ → Event
  writes stops : ℕ → Event

abbrev pub next_write : List (List Write) → ℕ → Option Write
next_write [] n = none
next_write ([] ∷ calls) zero = none
next_write ((w ∷ ws) ∷ calls) zero = some w
next_write (ws ∷ calls) (suc n) = next_write calls n

abbrev pub after_write : List (List Write) → ℕ → List (List Write)
after_write [] n = []
after_write ([] ∷ calls) zero = [] ∷ calls
after_write ((w ∷ ws) ∷ calls) zero = ws ∷ calls
after_write (ws ∷ calls) (suc n) = ws ∷ after_write calls n

abbrev pub after_stop : List (List Write) → ℕ → List (List Write)
after_stop [] n = []
after_stop (ws ∷ calls) zero = [] ∷ calls
after_stop (ws ∷ calls) (suc n) = ws ∷ after_stop calls n

abbrev pub perform_next : Queue → Option Write → Queue
perform_next q none = q
perform_next q (some w) = perform q w

unfoldable pub happen : System → Event → System
happen s (enqueues now hex from_agent to_agent question priority timeout) = record s {
  queue = (enqueue s.queue now hex from_agent to_agent question priority timeout).1;
}
happen s (claims id renames) = record s { queue = (claim s.queue id renames).1 }
happen s (begins_complete id answer now) = record s {
  calls = complete_writes s.queue id answer now ∷ s.calls;
}
happen s (begins_fail id reason now) = record s {
  calls = fail_writes s.queue id reason now ∷ s.calls;
}
happen s (writes n) = record {
  queue = perform_next s.queue (next_write s.calls n);
  calls = after_write s.calls n;
}
happen s (stops n) = record s { calls = after_stop s.calls n }

abbrev pub happen_all : System → List Event → System
happen_all s [] = s
happen_all s (e ∷ es) = happen_all (happen s e) es

-- The job is in `done` or `failed`; and in any directory.
abbrev pub settled : Queue → Text → Bool
settled q j = is_some (get q.done j) || is_some (get q.failed j)

abbrev pub is_there : Queue → Text → Bool
is_there q j = is_some (get q.pending j) || is_some (get q.inflight j) || settled q j

-- Where the jobs `s` are settled, these writes remove only what is settled by then.
abbrev pub IsSafe : (Text → Bool) → List Write → Type 0
IsSafe s [] = Unit
IsSafe s (put_done id job ∷ ws) = IsSafe (λ j. id == j || s j) ws
IsSafe s (put_failed id job ∷ ws) = IsSafe (λ j. id == j || s j) ws
IsSafe s (put_answer id answer ∷ ws) = IsSafe s ws
IsSafe s (remove_inflight id ∷ ws) = (s id ≡ true) × IsSafe s ws
IsSafe s (remove_pending id ∷ ws) = (s id ≡ true) × IsSafe s ws

abbrev IsMore : (Text → Bool) → (Text → Bool) → Type 0
IsMore s t = (j : Text) → s j ≡ true → t j ≡ true

IsSafe-more : (s t : Text → Bool) (ws : List Write) → IsMore s t → IsSafe s ws → IsSafe t ws
IsSafe-more s t [] m a = tt
IsSafe-more s t (put_done id job ∷ ws) m a =
    IsSafe-more (λ j. id == j || s j) (λ j. id == j || t j) ws (λ j h. ground (arith, h, m j)) a
IsSafe-more s t (put_failed id job ∷ ws) m a =
    IsSafe-more (λ j. id == j || s j) (λ j. id == j || t j) ws (λ j h. ground (arith, h, m j)) a
IsSafe-more s t (put_answer id answer ∷ ws) m a = IsSafe-more s t ws m a
IsSafe-more s t (remove_inflight id ∷ ws) m (p, a) = (m id p, IsSafe-more s t ws m a)
IsSafe-more s t (remove_pending id ∷ ws) m (p, a) = (m id p, IsSafe-more s t ws m a)

-- What a call is to do when it begins is safe.
complete_writes-IsSafe :
    (q : Queue) (id answer : Text) (now : ℕ) (s : Text → Bool)
    → IsSafe s (complete_writes q id answer now)
unfolding complete_writes
complete_writes-IsSafe q id answer now s = elim (Option-cases (get q.inflight id)) [
  | inl e ↦ rw (complete_writes, e) tt
  | inr (job, e) ↦ rw (complete_writes, e) (ground arith, tt)
]

fail_writes-IsSafe :
    (q : Queue) (id reason : Text) (now : ℕ) (s : Text → Bool)
    → IsSafe s (fail_writes q id reason now)
unfolding fail_writes
fail_writes-IsSafe q id reason now s = elim (Option-cases (get q.inflight id)) [
  | inr (job, e) ↦ rw (fail_writes, e) (ground arith, tt)
  | inl e ↦ elim (Option-cases (get q.pending id)) [
    | inl f ↦ rw (fail_writes, e, f) tt
    | inr (job, f) ↦ rw (fail_writes, e, f) (ground arith, tt)
  ]
]

-- A write unsettles nothing, and one that is safe loses no job.
settled-perform : (q : Queue) (w : Write) → IsMore (settled q) (settled (perform q w))
settled-perform q (put_done id job) j h = ground (arith, h, get-put q.done id j job)
settled-perform q (put_failed id job) j h = ground (arith, h, get-put q.failed id j job)
settled-perform q (put_answer id answer) j h = h
settled-perform q (remove_inflight id) j h = h
settled-perform q (remove_pending id) j h = h

rest-IsSafe :
    (q : Queue) (w : Write) (ws : List Write)
    → IsSafe (settled q) (w ∷ ws)
    → IsSafe (settled (perform q w)) ws
rest-IsSafe q (put_done id job) ws a =
    IsSafe-more (λ j. id == j || settled q j) _ ws
      (λ j h. ground (arith, h, get-put q.done id j job)) a
rest-IsSafe q (put_failed id job) ws a =
    IsSafe-more (λ j. id == j || settled q j) _ ws
      (λ j h. ground (arith, h, get-put q.failed id j job)) a
rest-IsSafe q (put_answer id answer) ws a = a
rest-IsSafe q (remove_inflight id) ws (p, a) = a
rest-IsSafe q (remove_pending id) ws (p, a) = a

perform_there :
    (q : Queue) (w : Write) (ws : List Write) (j : Text)
    → IsSafe (settled q) (w ∷ ws)
    → is_there q j ≡ true
    → is_there (perform q w) j ≡ true
perform_there q (put_done id job) ws j a h = ground (arith, h, get-put q.done id j job)
perform_there q (put_failed id job) ws j a h = ground (arith, h, get-put q.failed id j job)
perform_there q (put_answer id answer) ws j a h = h
perform_there q (remove_inflight id) ws j (p, a) h = ground (arith, h, p, get-pop q.inflight id j)
perform_there q (remove_pending id) ws j (p, a) h = ground (arith, h, p, get-pop q.pending id j)

claim_there :
    (q : Queue) (id j : Text) (renames : Bool)
    → (is_there q j ≡ true → is_there (claim q id renames).1 j ≡ true)
      × (settled (claim q id renames).1 j ≡ settled q j)
unfolding claim
claim_there q id j renames = elim (Option-cases (get q.pending id)) [
  | inl e ↦ (λ h. ground (arith, e, h), ground (arith, e))
  | inr (job, e) ↦ (
    λ h. ground (arith, e, h, get-pop q.pending id j, get-put q.inflight id j job),
    ground (arith, e),
  )
]

-- All the calls under way are safe.
abbrev pub AllSafe : Queue → List (List Write) → Type 0
AllSafe q calls = All (IsSafe (settled q)) calls

AllSafe-more :
    (q q' : Queue) (calls : List (List Write))
    → IsMore (settled q) (settled q')
    → AllSafe q calls
    → AllSafe q' calls
AllSafe-more q q' [] m a = tt
AllSafe-more q q' (ws ∷ calls) m (a, as_) =
    (IsSafe-more (settled q) (settled q') ws m a, AllSafe-more q q' calls m as_)

-- The invariant, and the job: both stay.
abbrev pub Keeps : Text → System → System → Type 0
Keeps j s t =
    AllSafe s.queue s.calls
    → AllSafe t.queue t.calls × (is_there s.queue j ≡ true → is_there t.queue j ≡ true)

written-IsMore :
    (q : Queue) (calls : List (List Write)) (n : ℕ)
    → IsMore (settled q) (settled (perform_next q (next_write calls n)))
written-IsMore q calls n j h = go (next_write calls n)
  where
    go : (o : Option Write) → settled (perform_next q o) j ≡ true
    go none = h
    go (some w) = settled-perform q w j h

writes-Keeps :
    (q : Queue) (calls : List (List Write)) (n : ℕ) (j : Text)
    → AllSafe q calls
    → AllSafe (perform_next q (next_write calls n)) (after_write calls n)
      × (is_there q j ≡ true → is_there (perform_next q (next_write calls n)) j ≡ true)
writes-Keeps q [] n j a = (tt, λ h. h)
writes-Keeps q ([] ∷ calls) zero j a = (a, λ h. h)
writes-Keeps q ((w ∷ ws) ∷ calls) zero j (a, as_) = (
  (rest-IsSafe q w ws a, AllSafe-more q (perform q w) calls (settled-perform q w) as_),
  λ h. perform_there q w ws j a h,
)
writes-Keeps q ([] ∷ calls) (suc n) j (a, as_) =
    let (b, k) = writes-Keeps q calls n j as_ in ((tt, b), k)
writes-Keeps q ((w ∷ ws) ∷ calls) (suc n) j (a, as_) =
    let (b, k) = writes-Keeps q calls n j as_ in
    ((IsSafe-more (settled q) _ (w ∷ ws) (written-IsMore q calls n) a, b), k)

stops-AllSafe :
    (q : Queue) (calls : List (List Write)) (n : ℕ)
    → AllSafe q calls
    → AllSafe q (after_stop calls n)
stops-AllSafe q [] n a = tt
stops-AllSafe q (ws ∷ calls) zero (a, as_) = (tt, as_)
stops-AllSafe q (ws ∷ calls) (suc n) (a, as_) = (a, stops-AllSafe q calls n as_)

happen-Keeps : (s : System) (e : Event) (j : Text) → Keeps j s (happen s e)
unfolding happen enqueue
happen-Keeps s (enqueues now hex from_agent to_agent question priority timeout) j a = (
  a,
  λ h. ground (
    arith,
    h,
    get-put s.queue.pending (message_id now hex) j
        (enqueue s.queue now hex from_agent to_agent question priority timeout).0,
  ),
)
happen-Keeps s (claims id renames) j a = (
  AllSafe-more s.queue (claim s.queue id renames).1 s.calls
      (λ k h. ground (arith, h, (claim_there s.queue id k renames).1)) a,
  (claim_there s.queue id j renames).0,
)
happen-Keeps s (begins_complete id answer now) j a =
    ((complete_writes-IsSafe s.queue id answer now (settled s.queue), a), λ h. h)
happen-Keeps s (begins_fail id reason now) j a =
    ((fail_writes-IsSafe s.queue id reason now (settled s.queue), a), λ h. h)
happen-Keeps s (writes n) j a = writes-Keeps s.queue s.calls n j a
happen-Keeps s (stops n) j a = (stops-AllSafe s.queue s.calls n a, λ h. h)

happen_all_there :
    (s : System) (es : List Event) (j : Text)
    → AllSafe s.queue s.calls
    → is_there s.queue j ≡ true
    → is_there (happen_all s es).queue j ≡ true
happen_all_there s [] j a h = h
happen_all_there s (e ∷ es) j a h =
    let (b, k) = happen-Keeps s e j a in happen_all_there (happen s e) es j b (k h)

-- No job is lost. From a queue that no call is working on, whatever processes enqueue, claim,
-- complete and fail, in any interleaving of the writes of `complete` and `fail`, whichever of these
-- calls stops half way, and whether renames succeed, a job that is in one of the four directories
-- is always in one of them.
pub no_job_lost :
    (q : Queue) (es : List Event) (j : Text)
    → is_there q j ≡ true
    → is_there (happen_all (idle_system q) es).queue j ≡ true
no_job_lost q es j h = happen_all_there (idle_system q) es j tt h
