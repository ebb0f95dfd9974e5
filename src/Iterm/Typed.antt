-- ===== src/Iterm/Typed.antt =====
-- src/teammate_mcp/iterm.py: the text of a compose box, and what is read of it.
use teammate_mcp.Base.{
  option_eq, contains, nat_eq, text_eq, length, drop, last_n, any, All, length-append, ℕ, zero, suc,
  ◌-◌, ◌≤◌, ◌≡◌, ◌∙◌, refl, ap, true, false, none, some, List, [], ◌∷◌, ◌++◌, map, arith,
}
use teammate_mcp.Base.Text.{Text, starts_with, has_text}
use teammate_mcp.Screen.{splitlines, join_lines}
use teammate_mcp.Iterm.{
  after_escape, unindent, is_white, drop_while, strip_ansi_from, strip_ansi, strip_compose_padding,
  after_mark, compose_line, is_blank_line, rule_mark, begins_prompt, is_edge, from_prompt,
  continuation, continuations, false_positives, trim_text, extract_compose,
}

-- A line that stands in the box behind its two blanks: it is not blank and no edge, it begins no
-- escape sequence, and it has no padding behind it. It may be indented.
pub record IsShown (l : Text) : Type 0 where
  pub full : is_blank_line (b' ' ∷ b' ' ∷ l) ≡ false
  pub inside : is_edge (b' ' ∷ b' ' ∷ l) ≡ false
  pub plain : contains l 27 ≡ false
  pub unpadded : strip_compose_padding l ≡ l

after_escape-plain : (c : ℕ) (s : Text) → contains (c ∷ s) 27 ≡ false → after_escape (c ∷ s) ≡ none
after_escape-plain c [] p = refl
after_escape-plain c (d ∷ s) p = ground (arith, p)

-- A text without an escape character stays as it is.
strip_ansi_from-plain :
    (n : ℕ) (s : Text) → length s ≤ n → contains s 27 ≡ false → strip_ansi_from n s ≡ s
unfolding strip_ansi_from
strip_ansi_from-plain zero [] h p = refl
strip_ansi_from-plain zero (c ∷ s) h p = absurd (omega (arith, h))
strip_ansi_from-plain (suc n) [] h p = refl
strip_ansi_from-plain (suc n) (c ∷ s) h p =
    rw (strip_ansi_from, after_escape-plain c s p)
      (ap (◌∷◌ c) (strip_ansi_from-plain n s (omega (arith, h)) (ground (arith, p))))

strip_ansi-plain : (s : Text) → contains s 27 ≡ false → strip_ansi s ≡ s
unfolding strip_ansi
strip_ansi-plain s p = strip_ansi_from-plain (length s) s (omega arith) p

-- The code reads such a line back without the two blanks, and with its own indentation.
continuation_shown : (l : Text) → IsShown l → continuation (b' ' ∷ b' ' ∷ l) ≡ l
unfolding continuation starts_with nat_eq
continuation_shown l s =
    ap (λ t. strip_compose_padding (unindent t))
      (strip_ansi-plain (b' ' ∷ b' ' ∷ l) (ground (arith, s.plain)))
    ∙ s.unpadded

-- The lines of a compose box: the prompt's, the indented ones, and the rule.
abbrev pub compose_box : Text → List Text → List Text → List Text
compose_box t ls below =
    (0x276f ∷ b' ' ∷ t) ∷ (map (λ l. b' ' ∷ b' ' ∷ l) ls ++ (rule_mark ∷ below))

rule-edge : is_edge rule_mark ≡ true
unfolding is_edge drop_while starts_with nat_eq
rule-edge = refl

rule-continuations : (below : List Text) → continuations (rule_mark ∷ below) ≡ []
unfolding continuations is_edge drop_while starts_with nat_eq
rule-continuations below = refl

continuations_shown :
    (ls below : List Text)
    → All IsShown ls
    → continuations (map (λ l. b' ' ∷ b' ' ∷ l) ls ++ (rule_mark ∷ below)) ≡ ls
unfolding continuations
continuations_shown [] below a = rule-continuations below
continuations_shown (l ∷ ls) below (s, a) =
    rw (s.full, s.inside, continuation_shown l s) (ap (◌∷◌ l) (continuations_shown ls below a))

-- Every prompt line is an edge.
after_mark-none : (s : Text) → begins_prompt s ≡ false → after_mark s ≡ none
unfolding nat_eq
after_mark-none [] e = refl
after_mark-none (c ∷ s) e = ground (arith, e)

edge_prompt : (l : Text) → is_edge l ≡ false → compose_line l ≡ none
unfolding is_edge compose_line
edge_prompt l e = after_mark-none (drop_while is_white l) (ground (arith, e))

rule-compose_line : compose_line rule_mark ≡ none
unfolding compose_line drop_while nat_eq
rule-compose_line = refl

prompt-compose_line : (t : Text) → compose_line (0x276f ∷ b' ' ∷ t) ≡ some t
unfolding compose_line drop_while nat_eq
prompt-compose_line t = refl

-- No line below the prompt is a prompt.
abbrev pub HasNoPrompt : List Text → Type 0
HasNoPrompt ls = All (λ l. compose_line l ≡ none) ls

no_prompt_shown :
    (ls below : List Text)
    → All IsShown ls
    → HasNoPrompt below
    → HasNoPrompt (map (λ l. b' ' ∷ b' ' ∷ l) ls ++ (rule_mark ∷ below))
no_prompt_shown [] below a n = (rule-compose_line, n)
no_prompt_shown (l ∷ ls) below (s, a) n =
    (edge_prompt (b' ' ∷ b' ' ∷ l) s.inside, no_prompt_shown ls below a n)

from_prompt-none : (ls : List Text) → HasNoPrompt ls → from_prompt ls ≡ none
unfolding from_prompt
from_prompt-none [] n = refl
from_prompt-none (l ∷ ls) (e, n) = rw (from_prompt-none ls n, e) refl

from_prompt-box :
    (t : Text) (ls : List Text)
    → HasNoPrompt ls
    → from_prompt ((0x276f ∷ b' ' ∷ t) ∷ ls) ≡ some (t, ls)
unfolding from_prompt
from_prompt-box t ls n = rw (from_prompt-none ls n, prompt-compose_line t) refl

-- The lines above the last prompt do not matter.
from_prompt-append :
    (above ls : List Text) (p : Text × List Text)
    → from_prompt ls ≡ some p
    → from_prompt (above ++ ls) ≡ some p
unfolding from_prompt
from_prompt-append [] ls p e = e
from_prompt-append (l ∷ above) ls p e = rw (from_prompt-append above ls p e) refl

drop-append {ℓ} :
    {A : Type ℓ} (n : ℕ) (above ls : List A)
    → n ≤ length above
    → (above' : List A) × (drop n (above ++ ls) ≡ above' ++ ls)
drop-append zero above ls h = (above, refl)
drop-append (suc n) [] ls h = absurd (omega (arith, h))
drop-append (suc n) (x ∷ above) ls h = drop-append n above ls (omega (arith, h))

last_n-append {ℓ} :
    {A : Type ℓ} (n : ℕ) (above ls : List A)
    → length ls ≤ n
    → (above' : List A) × (last_n n (above ++ ls) ≡ above' ++ ls)
last_n-append n above ls h =
    drop-append (length (above ++ ls) - n) above ls (omega (arith, h, length-append above ls))

-- What is typed in a compose box of at most 40 lines, on a screen with anything above the box and
-- no prompt below its rule, is read back line by line, where the first line has no padding and no
-- escape sequence, the others (indented or not) have no escape character, no padding behind them
-- and are no blank line, no prompt, no rule and no status line, and the whole has no trailing white space and no mark of this program's own messages.
pub extract_compose-box :
    (screen t : Text) (above ls below : List Text)
    → splitlines screen ≡ above ++ compose_box t ls below
    → length (compose_box t ls below) ≤ 40
    → HasNoPrompt below
    → strip_compose_padding (strip_ansi t) ≡ t
    → All IsShown ls
    → trim_text (join_lines (t ∷ ls)) ≡ join_lines (t ∷ ls)
    → any (has_text (join_lines (t ∷ ls))) false_positives ≡ false
    → extract_compose (some screen) ≡ join_lines (t ∷ ls)
unfolding extract_compose
extract_compose-box screen t above ls below e len n p a w f =
    let (above', cut) = last_n-append 40 above (compose_box t ls below) len in
    let shown = no_prompt_shown ls below a n in
    rw
      (
        extract_compose,
        e,
        cut,
        from_prompt-append above' (compose_box t ls below) _ (from_prompt-box t _ shown),
        p,
        continuations_shown ls below a,
        w,
        f,
      )
      refl
