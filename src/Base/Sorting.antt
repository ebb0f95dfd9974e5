-- ===== src/Base/Sorting.antt =====
-- `list.sort` by a Boolean order: the stable sort, its least and its greatest element.
use mathlib.Core.Path.{◌≡◌, sym, subst}
use mathlib.Core.Logic.{◌⊎◌, inl, inr}
use mathlib.Core.Bool.{Bool, true, false}
use mathlib.Core.Option.{Option, none, some}
use mathlib.Core.List.{List, [], ◌∷◌, Memᴰ}
use mathlib.Core.List.Memᴰ
use native.Mathlib.Omega.{arith}
use teammate_mcp.Base.Core.{if◌then◌else◌, Bool-cases, Option-cases}
use teammate_mcp.Base.Lists.{All}

-- `xs[-1]` and `xs[0]` of a list that may be empty.
module _ {ℓ} {A : Type ℓ} where
  unfoldable pub last_of : List A → Option A
  last_of [] = none
  last_of (x ∷ xs) = let rest = last_of xs in elim rest [ none ↦ some x | some y ↦ some y ]

  abbrev pub first_of : List A → Option A
  first_of [] = none
  first_of (x ∷ xs) = some x

module _ {ℓ} {A : Type ℓ} (le : A → A → Bool) where
  unfoldable pub insert_by : A → List A → List A
  insert_by x [] = x ∷ []
  insert_by x (y ∷ ys) = let rest = insert_by x ys in if le x y then x ∷ y ∷ ys else y ∷ rest

  unfoldable pub sort_by : List A → List A
  unfolding insert_by
  sort_by [] = []
  sort_by (x ∷ xs) = insert_by x (sort_by xs)

module _ {ℓ κ} {A : Type ℓ} where
  pub All-map {μ} :
      {P : A → Type κ} {Q : A → Type μ} (f : (x : A) → P x → Q x) (xs : List A)
      → All P xs
      → All Q xs
  All-map f [] a = tt
  All-map f (x ∷ xs) (p, a) = (f x p, All-map f xs a)

  pub All-mem : (P : A → Type κ) {x : A} (xs : List A) → All P xs → Memᴰ x xs → P x
  All-mem P [] a m = absurd (Memᴰ.not-nil m)
  All-mem P (y ∷ ys) (p, a) m = elim (Memᴰ.cases_cons m) [
    | inl e ↦ subst P (sym e) p
    | inr n ↦ All-mem P ys a n
  ]

  All-last_of-none : (P : A → Type κ) (xs : List A) → last_of xs ≡ none → All P xs
  unfolding last_of
  All-last_of-none P [] e = tt
  All-last_of-none P (x ∷ xs) e = absurd (ground (arith, e))

  -- Sorting adds nothing.
  module _ (le : A → A → Bool) (P : A → Type κ) where
    All-insert_by : (x : A) (ys : List A) → P x → All P ys → All P (insert_by le x ys)
    unfolding insert_by
    All-insert_by x [] p a = (p, tt)
    All-insert_by x (y ∷ ys) p (q, a) = elim (Bool-cases (le x y)) [
      | inl e ↦ rw e (p, (q, a))
      | inr e ↦ rw e (q, All-insert_by x ys p a)
    ]

    All-of_insert_by : (x : A) (ys : List A) → All P (insert_by le x ys) → P x × All P ys
    unfolding insert_by
    All-of_insert_by x [] (p, a) = (p, tt)
    All-of_insert_by x (y ∷ ys) a = elim (Bool-cases (le x y)) [
      | inl e ↦ rw e at a
      | inr e ↦ (let (q, b) = rw e at a in let (p, b') = All-of_insert_by x ys b in (p, (q, b')))
    ]

    pub All-of_sort_by : (xs : List A) → All P (sort_by le xs) → All P xs
    unfolding sort_by
    All-of_sort_by [] a = tt
    All-of_sort_by (x ∷ xs) a =
        let (p, b) = All-of_insert_by x (sort_by le xs) a in (p, All-of_sort_by xs b)

module _ {ℓ} {A : Type ℓ} (le : A → A → Bool) where
  mem-insert_by : (z x : A) (ys : List A) → Memᴰ z (insert_by le x ys) → (z ≡ x) ⊎ Memᴰ z ys
  unfolding insert_by
  mem-insert_by z x [] m = Memᴰ.cases_cons m
  mem-insert_by z x (y ∷ ys) m = elim (Bool-cases (le x y)) [
    | inl e ↦ Memᴰ.cases_cons (rw e at m)
    | inr e ↦ elim (Memᴰ.cases_cons (rw e at m)) [
      | inl f ↦ inr (Memᴰ.head f)
      | inr n ↦ elim (mem-insert_by z x ys n) [ inl f ↦ inl f | inr k ↦ inr (Memᴰ.tail k) ]
    ]
  ]

  mem-sort_by : (z : A) (xs : List A) → Memᴰ z (sort_by le xs) → Memᴰ z xs
  unfolding sort_by
  mem-sort_by z [] m = m
  mem-sort_by z (x ∷ xs) m = elim (mem-insert_by z x (sort_by le xs) m) [
    | inl e ↦ Memᴰ.head e
    | inr n ↦ Memᴰ.tail (mem-sort_by z xs n)
  ]

  abbrev IsAscending : List A → Type 0
  IsAscending [] = Unit
  IsAscending (x ∷ xs) = All (λ y. le x y ≡ true) xs × IsAscending xs

  -- An order that is total and transitive.
  pub record IsOrder : Type ℓ where
    pub total : (x y : A) → le x y ≡ false → le y x ≡ true
    pub trans : (x y z : A) → le x y ≡ true → le y z ≡ true → le x z ≡ true

  module _ (o : IsOrder) where
    le_self : (x : A) → le x x ≡ true
    le_self x = elim (Bool-cases (le x x)) [ inl e ↦ e | inr e ↦ o.total x x e ]

    insert_by-IsAscending : (x : A) (ys : List A) → IsAscending ys → IsAscending (insert_by le x ys)
    unfolding insert_by
    insert_by-IsAscending x [] i = (tt, tt)
    insert_by-IsAscending x (y ∷ ys) (below, i) = elim (Bool-cases (le x y)) [
      | inl e ↦ rw e ((e, All-map (λ z p. o.trans x y z e p) ys below), (below, i))
      | inr e ↦ rw e (
        All-insert_by le (λ z. le y z ≡ true) x ys (o.total x y e) below,
        insert_by-IsAscending x ys i,
      )
    ]

    sort_by-IsAscending : (xs : List A) → IsAscending (sort_by le xs)
    unfolding sort_by
    sort_by-IsAscending [] = tt
    sort_by-IsAscending (x ∷ xs) = insert_by-IsAscending x (sort_by le xs) (sort_by-IsAscending xs)

    last_of_greatest :
        (z : A) (xs : List A)
        → IsAscending xs
        → last_of xs ≡ some z
        → Memᴰ z xs × All (λ y. le y z ≡ true) xs
    unfolding last_of
    last_of_greatest z [] i e = absurd (ground (arith, e))
    last_of_greatest z (x ∷ xs) (below, i) e = elim (Option-cases (last_of xs)) [
      | inl f ↦
          let same : x ≡ z = ground (arith, e, f) in
          (Memᴰ.head (sym same), (rw same (le_self z), All-last_of-none _ xs f))
      | inr (y, f) ↦
          let (m, l) = last_of_greatest z xs i (ground (arith, e, f)) in
          (Memᴰ.tail m, (All-mem (λ y. le x y ≡ true) xs below m, l))
    ]

    -- The last of the sorted list, and the first, are its greatest and its least element.
    pub last_of-sort_by :
        (z : A) (xs : List A)
        → last_of (sort_by le xs) ≡ some z
        → Memᴰ z xs × All (λ y. le y z ≡ true) xs
    last_of-sort_by z xs e =
        let (m, l) = last_of_greatest z (sort_by le xs) (sort_by-IsAscending xs) e in
        (mem-sort_by z xs m, All-of_sort_by le (λ y. le y z ≡ true) xs l)

    first_of_least :
        (z : A) (xs : List A)
        → IsAscending xs
        → first_of xs ≡ some z
        → Memᴰ z xs × All (λ y. le z y ≡ true) xs
    first_of_least z [] i e = absurd (ground (arith, e))
    first_of_least z (x ∷ xs) (below, i) e =
        let same : x ≡ z = ground (arith, e) in
        (
          Memᴰ.head (sym same),
          subst (λ w. All (λ y. le w y ≡ true) (x ∷ xs)) same (le_self x, below),
        )

    pub first_of-sort_by :
        (z : A) (xs : List A)
        → first_of (sort_by le xs) ≡ some z
        → Memᴰ z xs × All (λ y. le z y ≡ true) xs
    first_of-sort_by z xs e =
        let (m, l) = first_of_least z (sort_by le xs) (sort_by-IsAscending xs) e in
        (mem-sort_by z xs m, All-of_sort_by le (λ y. le z y ≡ true) xs l)

-- A list with no last element, or no first, is empty before it is sorted.
module _ {ℓ κ} {A : Type ℓ} (le : A → A → Bool) (P : A → Type κ) where
  pub All-last_of-sort_by : (xs : List A) → last_of (sort_by le xs) ≡ none → All P xs
  All-last_of-sort_by xs e = All-of_sort_by le P xs (All-last_of-none P (sort_by le xs) e)

  pub All-first_of-sort_by : (xs : List A) → first_of (sort_by le xs) ≡ none → All P xs
  All-first_of-sort_by xs e = All-of_sort_by le P xs (none_left (sort_by le xs) e)
    where
      none_left : (ys : List A) → first_of ys ≡ none → All P ys
      none_left [] f = tt
      none_left (y ∷ ys) f = absurd (ground (arith, f))
