-- ===== src/Queue/Ids.antt =====
-- src/teammate_mcp/queue.py: the order of the files' names.
use native.Mathlib.Nat.{pow-suc, mod-lt}
use native.Mathlib.Decide.{dec_lt}
use teammate_mcp.Base.{
  option_eq, nat_eq, text_eq, ℕ, zero, suc, ◌/◌, ◌%◌, ◌^◌, ◌<◌, ◌≡◌, ◌⊎◌, inl, inr, true, ◌∷◌, ◌++◌,
  arith,
}
use teammate_mcp.Base.Text.{Text}
use teammate_mcp.Base.Order.{text_le}
use teammate_mcp.Queue.{digits, padded, message_id}

-- Two numbers are ordered by their quotients, and under equal ones by their remainders.
div_mod_lt : (p a b : ℕ) → 0 < p → a < b → (a / p < b / p) ⊎ ((a / p ≡ b / p) × (a % p < b % p))
div_mod_lt p a b pos h = elim (dec_lt (a / p) (b / p)) [
  | yes l ↦ inl l
  | no n ↦ inr (grind arith, grind arith)
]

pow_pos : (k : ℕ) → 0 < 10 ^ k
pow_pos zero = omega arith
pow_pos (suc k) = omega (arith, pow_pos k, pow-suc 10 k)

text_le-cons_lt : (c d : ℕ) (s t : Text) → c < d → text_le (c ∷ s) (d ∷ t) ≡ true
unfolding text_le
text_le-cons_lt c d s t h = ground arith

text_le-cons_eq :
    (c d : ℕ) (s t : Text) → c ≡ d → text_le s t ≡ true → text_le (c ∷ s) (d ∷ t) ≡ true
unfolding text_le
text_le-cons_eq c d s t h k = ground arith

digits-lt :
    (k a b : ℕ) (s t : Text)
    → a < b
    → b < 10 ^ k
    → text_le (digits k a ++ s) (digits k b ++ t) ≡ true
unfolding digits
digits-lt zero a b s t h k = absurd (omega arith)
digits-lt (suc k) a b s t h l = elim (div_mod_lt (10 ^ k) a b (pow_pos k) h) [
  | inl q ↦ text_le-cons_lt _ _ _ _ (omega arith)
  | inr (q, r) ↦
      text_le-cons_eq _ _ _ _ (omega arith)
        (digits-lt k (a % 10 ^ k) (b % 10 ^ k) s t r (mod-lt b (pow_pos k)))
]

-- An id of an earlier millisecond sorts before one of a later, up to the year 2286.
pub message_id_order :
    (a b : ℕ) (hex other : Text)
    → a < b
    → b < 10 ^ 13
    → text_le (message_id a hex) (message_id b other) ≡ true
unfolding message_id padded
message_id_order a b hex other h k = ground (arith, digits-lt 13 a b (b'-' ∷ hex) (b'-' ∷ other))
