-- ===== src/Screen/Inject.antt =====
-- src/teammate_mcp/server.py: the characters that are injected.
use teammate_mcp.Base.{
  ltb, ◌==◌, option_eq, nat_eq, text_eq, length, any, ℕ, suc, ◌≡◌, refl, ap, Bool, false, not, ◌&&◌,
  ◌||◌, [], ◌∷◌, arith,
}
use teammate_mcp.Base.Text.{Text}
use teammate_mcp.Screen.{clean, sanitize_for_inject}

-- A character that a terminal may take for the start of a control sequence.
abbrev pub is_control : ℕ → Bool
is_control c = (ltb c 0x20 || c == 0x7f) && not (c == 9 || c == 10 || c == 13 || c == 11)

clean_char : (c : ℕ) → (is_control (clean c) ≡ false) × (is_control c ≡ false → clean c ≡ c)
unfolding clean nat_eq
clean_char c = (ground arith, λ h. ground arith)

-- The sanitized body is as long as the body, holds no control character but tabs and line breaks,
-- and is the body itself where that held none.
pub sanitize_for_inject_safe :
    (s : Text)
    → (length (sanitize_for_inject s) ≡ length s)
      × (any is_control (sanitize_for_inject s) ≡ false)
      × (any is_control s ≡ false → sanitize_for_inject s ≡ s)
unfolding sanitize_for_inject
sanitize_for_inject_safe [] = (refl, refl, λ h. refl)
sanitize_for_inject_safe (c ∷ s) =
    let (one, two) = clean_char c in
    let (l, none_left, same) = sanitize_for_inject_safe s in
    (ap suc l, ground (arith, one, none_left), λ h. ground (arith, two, same, h))
