-- ===== src/Replies/Oldest.antt =====
-- src/teammate_mcp/cli.py: which reply `next-reply` answers with.
use teammate_mcp.Base.{
  if◌then◌else◌, Bool-cases, is_some, option_eq, nat_eq, text_eq, All, ℕ, ◌≡◌, refl, ap, ◌⊎◌, inl,
  inr, Bool, true, false, ◌&&◌, Option, none, some, List, [], ◌∷◌, ◌++◌, arith, ==_iff, ◌≤◌,
}
use mathlib.Core.List.{Memᴰ}
use mathlib.Core.List.Memᴰ
use teammate_mcp.Base.Sorting.{
  first_of, sort_by, All-map, IsOrder, first_of-sort_by, All-first_of-sort_by,
}
use teammate_mcp.Base.Text.{Text}
use teammate_mcp.Base.Dict.{Dict}
use teammate_mcp.Base.Order.{text_le, text_le_total, text_le_trans}
use teammate_mcp.Registry.{nonempty}
use teammate_mcp.Mailbox.{Message, Box}
use teammate_mcp.Replies.{
  Folder, in_inbox, in_processed, Candidate, matched_label, file_name, candidates_in, time_le,
  candidate_le, candidates, next_candidate, printed, next_reply,
}

time_le_total : (a b : Option ℕ) → time_le a b ≡ false → time_le b a ≡ true
time_le_total none b e = absurd (cc e)
time_le_total (some a) none e = refl
time_le_total (some a) (some b) e = ground (arith, e)

time_le_trans : (a b c : Option ℕ) → time_le a b ≡ true → time_le b c ≡ true → time_le a c ≡ true
time_le_trans none b c e f = refl
time_le_trans (some a) none c e f = absurd (cc e)
time_le_trans (some a) (some b) none e f = absurd (cc f)
time_le_trans (some a) (some b) (some c) e f = ground (arith, e, f)

time_le_antisym : (a b : Option ℕ) → time_le a b ≡ true → time_le b a ≡ true → a ≡ b
time_le_antisym none none e f = refl
time_le_antisym none (some b) e f = absurd (cc f)
time_le_antisym (some a) none e f = absurd (cc e)
time_le_antisym (some a) (some b) e f = ap some (ground (arith, e, f))

candidate_le_total : (x y : Candidate) → candidate_le x y ≡ false → candidate_le y x ≡ true
unfolding candidate_le
candidate_le_total x y e =
    ground (arith, e, text_le_total x.name y.name, time_le_total x.created_at y.created_at)

candidate_le_trans :
    (x y z : Candidate)
    → candidate_le x y ≡ true
    → candidate_le y z ≡ true
    → candidate_le x z ≡ true
unfolding candidate_le
candidate_le_trans x y z e f = ground (
  arith,
  e,
  f,
  text_le_trans x.name y.name z.name,
  time_le_trans x.created_at y.created_at z.created_at,
  time_le_antisym x.created_at y.created_at,
)

-- Earlier, or at the same time and not after it by name.
candidate_le-IsOrder : IsOrder candidate_le
candidate_le-IsOrder = record { total = candidate_le_total; trans = candidate_le_trans }

-- The first time is not after the second; a missing one is before every time.
abbrev pub IsNotLater : Option ℕ → Option ℕ → Type 0
IsNotLater none t = Unit
IsNotLater (some a) none = ⊥
IsNotLater (some a) (some b) = a ≤ b

time-IsNotLater : (s t : Option ℕ) → time_le s t ≡ true → IsNotLater s t
time-IsNotLater none t e = tt
time-IsNotLater (some a) none e = absurd (cc e)
time-IsNotLater (some a) (some b) e = ground (arith, e)

time_le_refl : (t : Option ℕ) → time_le t t ≡ true
time_le_refl none = refl
time_le_refl (some a) = ground arith

not_later :
    (x y : Candidate)
    → candidate_le x y ≡ true
    → IsNotLater x.created_at y.created_at
      × (x.created_at ≡ y.created_at → text_le x.name y.name ≡ true)
unfolding candidate_le
not_later x y e = (
  time-IsNotLater x.created_at y.created_at
      (ground (arith, e, time_le_refl y.created_at, ==_iff x.created_at y.created_at)),
  λ s. ground (arith, e, (==_iff x.created_at y.created_at).1 s),
)

-- A candidate stands in its folder, under its name, and is from a wanted sender.
module _ (wanted : List Text) where
  abbrev pub IsIn : Folder → Dict Message → Candidate → Type 0
  IsIn f d c =
      (job_id : Text) × Memᴰ (job_id, c.data_) d
      × (c.name ≡ file_name job_id)
      × (c.subdir ≡ f)
      × (c.created_at ≡ c.data_.created_at)
      × (c.matched ≡ matched_label wanted c.data_)
      × (nonempty c.matched ≡ true)

  mem-candidates_in :
      (f : Folder) (d : Dict Message) (c : Candidate)
      → Memᴰ c (candidates_in wanted f d)
      → IsIn f d c
  unfolding candidates_in
  mem-candidates_in f [] c m = absurd (Memᴰ.not-nil m)
  mem-candidates_in f ((job_id, x) ∷ d) c m =
      elim (Bool-cases (nonempty (matched_label wanted x))) [
        | inl e ↦ elim (Memᴰ.cases_cons (rw e at m)) [
          | inl p ↦ rw p (job_id, Memᴰ.head refl, refl, refl, refl, refl, e)
          | inr n ↦ more (mem-candidates_in f d c n)
        ]
        | inr e ↦ more (mem-candidates_in f d c (rw e at m))
      ]
    where
      more : IsIn f d c → IsIn f ((job_id, x) ∷ d) c
      more (j, p, q, r, t, u, v) = (j, Memᴰ.tail p, q, r, t, u, v)

  -- The candidate that a file is.
  abbrev pub candidate_of : Folder → Text × Message → Candidate
  candidate_of f x = record {
    created_at = x.1.created_at;
    name = file_name x.0;
    subdir = f;
    matched = matched_label wanted x.1;
    data_ = x.1;
  }

  -- Every message from a wanted sender is a candidate.
  All-candidates_in {ℓ} :
      (P : Candidate → Type ℓ) (f : Folder) (d : Dict Message)
      → All P (candidates_in wanted f d)
      → All (λ x. nonempty (matched_label wanted x.1) ≡ true → P (candidate_of f x)) d
  unfolding candidates_in
  All-candidates_in P f [] a = tt
  All-candidates_in P f ((job_id, x) ∷ d) a =
      elim (Bool-cases (nonempty (matched_label wanted x))) [
        | inl e ↦ (let b = rw e at a in (λ n. b.0, All-candidates_in P f d b.1))
        | inr e ↦ (λ n. absurd (cc (e, n)), All-candidates_in P f d (rw e at a))
      ]

  -- Every wanted message of the folder was created when the candidate was or later, and one that
  -- was created at the same time has no earlier name.
  abbrev pub IsBefore : Candidate → Dict Message → Type 0
  IsBefore c d =
      All
        (λ x.
          nonempty (matched_label wanted x.1) ≡ true
          → IsNotLater c.created_at x.1.created_at
            × (c.created_at ≡ x.1.created_at → text_le c.name (file_name x.0) ≡ true))
        d

  before :
      (c : Candidate) (f : Folder) (d : Dict Message)
      → All
          (λ x.
            nonempty (matched_label wanted x.1) ≡ true → candidate_le c (candidate_of f x) ≡ true)
          d
      → IsBefore c d
  before c f d a = All-map (λ x h n. not_later c (candidate_of f x) (h n)) d a

  abbrev pub IsUnwanted : Dict Message → Type 0
  IsUnwanted d = All (λ x. nonempty (matched_label wanted x.1) ≡ false) d

  -- The answers that are right for a mailbox.
  pub data IsOldest (b : Box) : Option Candidate → Type 0 where
    nothing : IsUnwanted b.inbox → IsUnwanted b.processed → IsOldest b none
    oldest :
        (c : Candidate)
        → IsIn in_inbox b.inbox c ⊎ IsIn in_processed b.processed c
        → IsBefore c b.inbox
        → IsBefore c b.processed
        → IsOldest b (some c)

  All-append {ℓ} :
      (P : Candidate → Type ℓ) (xs ys : List Candidate) → All P (xs ++ ys) → All P xs × All P ys
  All-append P [] ys a = (tt, a)
  All-append P (x ∷ xs) ys (p, a) = let (b, c) = All-append P xs ys a in ((p, b), c)

  never :
      (f : Folder) (d : Dict Message)
      → All (λ x. nonempty (matched_label wanted x.1) ≡ true → ⊥) d
      → IsUnwanted d
  never f d a =
      All-map
        (λ x n. elim (Bool-cases (nonempty (matched_label wanted x.1))) [
          | inl e ↦ absurd (n e)
          | inr e ↦ e
        ])
        d a

  next_candidate-IsOldest : (b : Box) → IsOldest b (next_candidate wanted b)
  unfolding next_candidate candidates
  next_candidate-IsOldest b = go (next_candidate wanted b) refl
    where
      all_of : List Candidate
      all_of = candidates wanted b

      go : (o : Option Candidate) → first_of (sort_by candidate_le all_of) ≡ o → IsOldest b o
      go none e =
          let (p, q) =
            All-append (λ x. ⊥) (candidates_in wanted in_inbox b.inbox)
              (candidates_in wanted in_processed b.processed)
              (All-first_of-sort_by candidate_le (λ x. ⊥) all_of e) in
          nothing (never in_inbox b.inbox (All-candidates_in (λ x. ⊥) in_inbox b.inbox p))
            (never in_processed b.processed (All-candidates_in (λ x. ⊥) in_processed b.processed q))
      go (some c) e =
          let (m, least) = first_of-sort_by candidate_le candidate_le-IsOrder c all_of e in
          let (p, q) =
            All-append (λ x. candidate_le c x ≡ true) (candidates_in wanted in_inbox b.inbox)
              (candidates_in wanted in_processed b.processed) least in
          oldest c
            (elim (Memᴰ.append_cases (candidates_in wanted in_inbox b.inbox) m) [
              | inl n ↦ inl (mem-candidates_in in_inbox b.inbox c n)
              | inr n ↦ inr (mem-candidates_in in_processed b.processed c n)
            ])
            (before c in_inbox b.inbox
              (All-candidates_in (λ x. candidate_le c x ≡ true) in_inbox b.inbox p))
            (before c in_processed b.processed
              (All-candidates_in (λ x. candidate_le c x ≡ true) in_processed b.processed q))

  -- `next-reply` fails exactly if no message of the two folders is from a wanted sender, and leaves
  -- the mailbox alone then; else it succeeds with a message that is from a wanted sender, stands in
  -- its folder, and that no other such message of either folder was created before, or at the same
  -- time under an earlier name; without `--consume` the mailbox stays as it is.
  pub next_reply-IsOldest :
      (consume : Bool) (b : Box)
      → IsOldest b (next_reply consume wanted b).1
        × ((next_reply consume wanted b).0
            ≡ (if is_some (next_reply consume wanted b).1 then 0 else 1))
        × ((consume && is_some (next_reply consume wanted b).1) ≡ false
            → (next_reply consume wanted b).2 ≡ b)
  unfolding next_reply
  next_reply-IsOldest consume b = go (next_candidate wanted b) (next_candidate-IsOldest b)
    where
      go :
          (o : Option Candidate)
          → IsOldest b o
          → IsOldest b (printed consume b o).1
            × ((printed consume b o).0 ≡ (if is_some (printed consume b o).1 then 0 else 1))
            × ((consume && is_some (printed consume b o).1) ≡ false → (printed consume b o).2 ≡ b)
      go none i = (i, refl, λ e. refl)
      go (some c) i = (i, refl, λ e. ground (arith, e))
