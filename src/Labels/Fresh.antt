-- ===== src/Labels/Fresh.antt =====
-- src/teammate_mcp/server.py: the choice of an automatic label.
use native.Mathlib.Nat.{pow-suc, mod-lt, div-add-mod}
use native.Mathlib.Decide.{dec_lt}
use teammate_mcp.Base.{
  ltb, if◌then◌else◌, Bool-cases, ◌==◌, contains, option_eq, nat_eq, text_eq, length, ℕ, zero, suc,
  ◌+◌, ◌-◌, ◌*◌, ◌/◌, ◌%◌, ◌^◌, ◌≤◌, ◌<◌, ◌≡◌, refl, ap, ◌∙◌, subst, ◌≢◌, inl, inr, true, false,
  none, List, [], ◌∷◌, ◌++◌, arith,
}
use teammate_mcp.Base.Text.{Text}
use teammate_mcp.Base.Dict.{get, keys}
use teammate_mcp.Queue.{digits, width}
use teammate_mcp.Registry.{Registry}
use teammate_mcp.Labels.{classify, numbered, first_free, next_auto_label}

-- The number that decimal digits stand for.
value : ℕ → Text → ℕ
value acc [] = acc
value acc (c ∷ s) = value (acc * 10 + (c - b'0')) s

pow_pos : (k : ℕ) → 0 < 10 ^ k
pow_pos zero = omega arith
pow_pos (suc k) = omega (arith, pow_pos k, pow-suc 10 k)

place_value :
    (acc p q r : ℕ) → (acc * 10 + (b'0' + q - b'0')) * p + r ≡ acc * (p * 10) + (p * q + r)
place_value acc p q r = let digit : b'0' + q - b'0' ≡ q = omega arith in rw digit (omega arith)

value-digits : (k n acc : ℕ) → n < 10 ^ k → value acc (digits k n) ≡ acc * 10 ^ k + n
unfolding value digits
value-digits zero n acc h = omega arith
value-digits (suc k) n acc h =
    rw (value-digits k (n % 10 ^ k) (acc * 10 + (b'0' + n / 10 ^ k - b'0')) (mod-lt n (pow_pos k)))
      (place_value acc (10 ^ k) (n / 10 ^ k) (n % 10 ^ k)
        ∙ cc (pow-suc 10 k, div-add-mod n (10 ^ k)))

width_enough : (fuel n : ℕ) → n ≤ fuel → n < 10 ^ width fuel n
unfolding width
width_enough zero n h = omega arith
width_enough (suc fuel) n h = elim (Bool-cases (ltb n 10)) [
  | inl e ↦ rw e (ground (arith, e))
  | inr e ↦
      let more = width_enough fuel (n / 10) (ground (arith, e)) in
      rw e (grind (arith, more, pow-suc 10 (width fuel (n / 10))))
]

decimal_inj : (a b : ℕ) → digits (width a a) a ≡ digits (width b b) b → a ≡ b
decimal_inj a b e =
    let read_a = value-digits (width a a) a 0 (width_enough a a (omega arith)) in
    let read_b = value-digits (width b b) b 0 (width_enough b b (omega arith)) in
    omega (arith, read_a, read_b, ap (value 0) e)

append_inj : (base s t : Text) → base ++ s ≡ base ++ t → s ≡ t
append_inj [] s t e = e
append_inj (c ∷ base) s t e = append_inj base s t (cc e)

numbered_inj : (base : Text) (a b : ℕ) → numbered base a ≡ numbered base b → a ≡ b
unfolding numbered
numbered_inj base a b e = decimal_inj a b (append_inj base _ _ e)

-- One occurrence less.
remove_first : Text → List Text → List Text
remove_first x [] = []
remove_first x (y ∷ l) = let rest = remove_first x l in if x == y then l else y ∷ rest

length-remove_first :
    (x : Text) (l : List Text) → contains l x ≡ true → suc (length (remove_first x l)) ≡ length l
unfolding remove_first
length-remove_first x [] h = cc
length-remove_first x (y ∷ l) h = ground (arith, length-remove_first x l)

contains-remove_first :
    (x a : Text) (l : List Text)
    → x ≢ a
    → contains l a ≡ true
    → contains (remove_first x l) a ≡ true
unfolding remove_first
contains-remove_first x a [] n h = h
contains-remove_first x a (y ∷ l) n h = ground (arith, contains-remove_first x a l)

module _ (used : List Text) (base : Text) where
  -- `xs` holds what is used from `n` on.
  abbrev Covers : List Text → ℕ → Type 0
  Covers xs n =
      (m : ℕ)
      → n ≤ m
      → contains used (numbered base m) ≡ true
      → contains xs (numbered base m) ≡ true

  Covers-next :
      (xs : List Text) (n : ℕ) → Covers xs n → Covers (remove_first (numbered base n) xs) (n + 1)
  Covers-next xs n cover m le u =
      contains-remove_first (numbered base n) (numbered base m) xs
        (λ e. absurd (omega (arith, numbered_inj base n m e))) (cover m (omega arith) u)

  first_free_free :
      (fuel n : ℕ) (xs : List Text)
      → length xs ≤ fuel
      → Covers xs n
      → contains used (numbered base (first_free used base fuel n)) ≡ false
  unfolding first_free
  first_free_free zero n [] h cover = elim (Bool-cases (contains used (numbered base n))) [
    | inl e ↦ absurd (cc (cover n (omega arith) e))
    | inr e ↦ e
  ]
  first_free_free zero n (x ∷ xs) h cover = absurd (omega arith)
  first_free_free (suc fuel) n xs h cover = elim (Bool-cases (contains used (numbered base n))) [
    | inr e ↦ rw e e
    | inl e ↦ rw e (
        first_free_free fuel (n + 1) (remove_first (numbered base n) xs)
          (omega (arith, length-remove_first (numbered base n) xs (cover n (omega arith) e)))
          (Covers-next xs n cover))
  ]

  -- All smaller numbers from `n` on are in use.
  first_free_least :
      (fuel n m : ℕ)
      → n ≤ m
      → m < first_free used base fuel n
      → contains used (numbered base m) ≡ true
  unfolding first_free
  first_free_least zero n m le lt = absurd (omega arith)
  first_free_least (suc fuel) n m le lt = elim (Bool-cases (contains used (numbered base n))) [
    | inr e ↦ absurd (ground (arith, e))
    | inl e ↦ elim (dec_lt n m) [
      | yes l ↦ first_free_least fuel (n + 1) m (omega arith) (rw e at lt)
      | no k ↦ subst (λ x. contains used (numbered base x) ≡ true) (omega arith) e
    ]
  ]

contains-keys_absent : (d : Registry) (j : Text) → contains (keys d) j ≡ false → get d j ≡ none
unfolding keys get
contains-keys_absent [] j h = refl
contains-keys_absent ((k, r) ∷ d) j h = ground (arith, contains-keys_absent d j)

-- The automatic label is not in use, so no session loses its name to it; and every smaller number
-- of the same kind is in use.
pub next_auto_label_free :
    (d : Registry) (job session_name : Text)
    → (get d (next_auto_label d job session_name) ≡ none)
      × ((n : ℕ) × (next_auto_label d job session_name ≡ numbered (classify job session_name) n)
          × ((m : ℕ)
              → 1 ≤ m
              → m < n
              → contains (keys d) (numbered (classify job session_name) m) ≡ true))
unfolding next_auto_label
next_auto_label_free d job session_name =
    let base = classify job session_name in
    (
      contains-keys_absent d _
          (first_free_free (keys d) base (length (keys d)) 1 (keys d) (omega arith) (λ m le u. u)),
      (
        first_free (keys d) base (length (keys d)) 1,
        refl,
        λ m le lt. first_free_least (keys d) base (length (keys d)) 1 m le lt,
      ),
    )
