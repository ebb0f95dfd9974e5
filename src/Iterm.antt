-- ===== src/Iterm.antt =====
-- src/teammate_mcp/iterm.py: the text that stands in a compose box, and the filters of terminal
-- text. What osascript answers is a parameter. Case is that of ASCII.
pub mod Typed
use teammate_mcp.Base.{
  if◌then◌else◌, Eq, ◌==◌, option_eq, nat_eq, text_eq, length, take, drop, last_n, any, first, ℕ,
  zero, suc, ◌+◌, ◌-◌, ◌*◌, ◌/◌, ◌^◌, Bool, true, false, not, ◌&&◌, ◌||◌, Option, none, some, List,
  [], ◌∷◌, arith,
}
use mathlib.Core.List.{reverse}
use teammate_mcp.Base.Text.{Text, str, between, lower, is_space, strip, starts_with, has_text}
use teammate_mcp.Screen.{splitlines, join_lines}

-- Python's white space, as `\s` and `str.strip` take it.
abbrev pub is_white : ℕ → Bool
is_white c =
    is_space c
    || c == 0x85
    || c == 0xa0
    || c == 0x1680
    || between 0x2000 0x200a c
    || c == 0x2028
    || c == 0x2029
    || c == 0x202f
    || c == 0x205f
    || c == 0x3000

unfoldable pub drop_while : (ℕ → Bool) → Text → Text
drop_while p [] = []
drop_while p (c ∷ s) = let rest = drop_while p s in if p c then rest else c ∷ s

-- `s.rstrip(chars)`
unfoldable pub rstrip_of : (ℕ → Bool) → Text → Text
unfolding drop_while
rstrip_of p s = reverse (drop_while p (reverse s))

-- What follows `[0-9;?]*[A-Za-z]`, if that is how the text begins.
abbrev pub is_param : ℕ → Bool
is_param c = between b'0' b'9' c || c == b';' || c == b'?'

abbrev pub is_letter : ℕ → Bool
is_letter c = between b'A' b'Z' c || between b'a' b'z' c

unfoldable pub after_params : Text → Option Text
after_params [] = none
after_params (c ∷ s) =
    let rest = after_params s in if is_param c then rest else if is_letter c then some s else none

-- What follows the escape sequence that the text begins with, if there is one.
abbrev pub after_escape : Text → Option Text
after_escape [] = none
after_escape (c ∷ []) = none
after_escape (c ∷ d ∷ s) = if c == 27 && d == b'[' then after_params s else none

-- A pass over the text, on fuel: each step drops a character at least.
unfoldable pub strip_ansi_from : ℕ → Text → Text
unfolding after_params
strip_ansi_from zero s = []
strip_ansi_from (suc n) [] = []
strip_ansi_from (suc n) (c ∷ s) = elim (after_escape (c ∷ s)) [
  | none ↦ c ∷ strip_ansi_from n s
  | some rest ↦ strip_ansi_from n rest
]

unfoldable pub strip_ansi : Text → Text
unfolding strip_ansi_from
strip_ansi s = strip_ansi_from (length s) s

-- `_strip_compose_padding`
unfoldable pub strip_compose_padding : Text → Text
unfolding rstrip_of
strip_compose_padding = rstrip_of (λ c. c == b' ' || c == 0xa0 || c == 0 || c == 9)

-- The match of `^\s*❯\s?(.*)$`.
abbrev pub drop_one_white : Text → Text
drop_one_white [] = []
drop_one_white (c ∷ s) = if is_white c then s else c ∷ s

abbrev pub after_mark : Text → Option Text
after_mark [] = none
after_mark (c ∷ s) = if c == 0x276f then some (drop_one_white s) else none

unfoldable pub compose_line : Text → Option Text
unfolding drop_while
compose_line l = after_mark (drop_while is_white l)

abbrev pub is_blank_line : Text → Bool
is_blank_line [] = true
is_blank_line (c ∷ s) = is_white c && is_blank_line s

-- `HRULE`, `NEXT_PROMPT` and `STATUS_PATTERNS`
abbrev pub rule_mark : Text
rule_mark = 0x2500 ∷ 0x2500 ∷ 0x2500 ∷ 0x2500 ∷ 0x2500 ∷ []

abbrev pub begins_prompt : Text → Bool
begins_prompt [] = false
begins_prompt (c ∷ s) = c == 0x276f || c == 0x258c

abbrev pub status_patterns : List Text
status_patterns = str "bypass permissions" ∷ str "shift+tab" ∷ str "[claude" ∷ str "[codex" ∷ []

-- A line that ends the compose box.
unfoldable pub is_edge : Text → Bool
unfolding drop_while starts_with has_text lower
is_edge l =
    starts_with (drop_while is_white l) rule_mark
    || begins_prompt (drop_while is_white l)
    || any (has_text (lower l)) status_patterns

-- The text after the last prompt, and the lines below it.
unfoldable pub from_prompt : List Text → Option (Text × List Text)
unfolding compose_line
from_prompt [] = none
from_prompt (l ∷ ls) =
    let below = from_prompt ls in
    elim below [
      | some p ↦ some p
      | none ↦ elim (compose_line l) [ none ↦ none | some t ↦ some (t, ls) ]
    ]

-- The next line that is not blank.
abbrev pub ahead : List Text → Text
ahead ls = elim (first (λ l. not (is_blank_line l)) ls) [ none ↦ [] | some l ↦ l ]

abbrev pub unindent : Text → Text
unindent l = if starts_with l (str "  ") then drop 2 l else l

unfoldable pub continuation : Text → Text
unfolding strip_ansi strip_compose_padding starts_with
continuation l = strip_compose_padding (unindent (strip_ansi l))

unfoldable pub continuations : List Text → List Text
unfolding is_edge continuation
continuations [] = []
continuations (l ∷ ls) =
    let rest = continuations ls in
    if is_blank_line l
    then (if is_edge (ahead ls) then [] else rest)
    else if is_edge l
    then []
    else continuation l ∷ rest

abbrev pub false_positives : List Text
false_positives =
    str "[teammate-mcp ASK"
    ∷ str "teammate-mcp ASK "
    ∷ str "Reply when you can by calling"
    ∷ str "no marker required"
    ∷ str "tmdone-"
    ∷ []

unfoldable pub trim_text : Text → Text
unfolding rstrip_of
trim_text = rstrip_of (λ c. c == 10 || c == b' ')

-- What is typed, from the prompt's text and the lines below.
abbrev pub composed : Text → List Text → Text
composed t ls =
    let rest = trim_text (join_lines (strip_compose_padding (strip_ansi t) ∷ continuations ls)) in
    if any (has_text rest) false_positives then [] else rest

-- `osa_extract_compose`: `none` is a capture that fails.
unfoldable pub extract_compose : Option Text → Text
unfolding from_prompt continuations join_lines trim_text has_text splitlines
extract_compose none = []
extract_compose (some screen) = elim (from_prompt (last_n 40 (splitlines screen))) [
  | none ↦ []
  | some (t, ls) ↦ composed t ls
]
