-- ===== src/Base/Order.antt =====
-- `sorted` on texts, by code points.
use mathlib.Core.Path.{◌≡◌, refl}
use mathlib.Core.Logic.{inl, inr}
use mathlib.Core.Bool.{Bool, true, false, ◌||◌}
use mathlib.Core.List.{List, [], ◌∷◌}
use native.Mathlib.Omega.{arith}
use teammate_mcp.Base.Core.{ltb, ◌==◌, contains, nat_eq, text_eq, Bool-cases, if◌then◌else◌}
use teammate_mcp.Base.Text.{Text}

unfoldable pub text_le : Text → Text → Bool
text_le [] t = true
text_le (c ∷ s) [] = false
text_le (c ∷ s) (d ∷ t) =
    let rest = text_le s t in if ltb c d then true else if ltb d c then false else rest

unfoldable pub insert_sorted : Text → List Text → List Text
unfolding text_le
insert_sorted x [] = x ∷ []
insert_sorted x (y ∷ ys) =
    let rest = insert_sorted x ys in if text_le x y then x ∷ y ∷ ys else y ∷ rest

unfoldable pub sorted : List Text → List Text
unfolding insert_sorted
sorted [] = []
sorted (x ∷ xs) = insert_sorted x (sorted xs)

pub text_le_refl : (s : Text) → text_le s s ≡ true
unfolding text_le
text_le_refl [] = refl
text_le_refl (c ∷ s) = ground (arith, text_le_refl s)

pub text_le_total : (s t : Text) → text_le s t ≡ false → text_le t s ≡ true
unfolding text_le
text_le_total [] t h = absurd (cc h)
text_le_total (c ∷ s) [] h = refl
text_le_total (c ∷ s) (d ∷ t) h = ground (arith, text_le_total s t)

pub text_le_trans : (s t u : Text) → text_le s t ≡ true → text_le t u ≡ true → text_le s u ≡ true
unfolding text_le
text_le_trans [] t u h k = refl
text_le_trans (c ∷ s) [] u h k = cc
text_le_trans (c ∷ s) (d ∷ t) [] h k = cc
text_le_trans (c ∷ s) (d ∷ t) (e ∷ u) h k = ground (arith, text_le_trans s t u)

-- The first of a list is below all the others, and so on.
pub data IsSorted : List Text → Type 0 where
  nil : IsSorted []
  one : (x : Text) → IsSorted (x ∷ [])
  more : {x y : Text} {l : List Text} → text_le x y ≡ true → IsSorted (y ∷ l) → IsSorted (x ∷ y ∷ l)

insert_sorted-IsSorted : (x : Text) (l : List Text) → IsSorted l → IsSorted (insert_sorted x l)
unfolding insert_sorted
insert_sorted-IsSorted x [] h = one x
insert_sorted-IsSorted x (y ∷ []) h = elim (Bool-cases (text_le x y)) [
  | inl e ↦ rw e (more e (one y))
  | inr e ↦ rw e (more (text_le_total x y e) (one x))
]
insert_sorted-IsSorted x (y ∷ z ∷ l) (more le h) = elim (Bool-cases (text_le x y)) [
  | inl e ↦ rw e (more e (more le h))
  | inr e ↦ elim (Bool-cases (text_le x z)) [
    | inl f ↦ rw (e, f) (more (text_le_total x y e) (more f h))
    | inr f ↦ rw (e, f) (more le (rw f at (insert_sorted-IsSorted x (z ∷ l) h)))
  ]
]

pub sorted-IsSorted : (l : List Text) → IsSorted (sorted l)
unfolding sorted
sorted-IsSorted [] = nil
sorted-IsSorted (x ∷ l) = insert_sorted-IsSorted x (sorted l) (sorted-IsSorted l)

contains-insert_sorted :
    (a x : Text) (l : List Text) → contains (insert_sorted x l) a ≡ (a == x || contains l a)
unfolding insert_sorted
contains-insert_sorted a x [] = refl
contains-insert_sorted a x (y ∷ l) = ground (arith, contains-insert_sorted a x l)

-- Sorting keeps the members.
pub contains-sorted : (a : Text) (l : List Text) → contains (sorted l) a ≡ contains l a
unfolding sorted
contains-sorted a [] = refl
contains-sorted a (x ∷ l) =
    ground (arith, contains-insert_sorted a x (sorted l), contains-sorted a l)
