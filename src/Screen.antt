-- ===== src/Screen.antt =====
-- What is read from a terminal screen, and what is written to it: the compose box tests of
-- src/teammate_mcp/watcher.py, and the filters of src/teammate_mcp/server.py around injection.
-- White space is that of ASCII. Times are milliseconds.
pub mod Compose
pub mod Inject
use teammate_mcp.Base.{
  ltb, leb, if◌then◌else◌, Eq, ◌==◌, option_eq, nat_eq, text_eq, last_n, any, first, ℕ, ◌+◌, ◌-◌,
  ◌/◌, Bool, true, false, not, ◌&&◌, ◌||◌, Option, none, some, List, [], ◌∷◌, ◌++◌, map, arith,
}
use mathlib.Core.List.{reverse}
use teammate_mcp.Base.Text.{Text, str, between, strip, has_text}

-- A character that ends a line for `splitlines`.
abbrev pub is_break : ℕ → Bool
is_break c = between 10 13 c || between 28 30 c || c == 0x85 || c == 0x2028 || c == 0x2029

abbrev pub push_char : ℕ → List Text → List Text
push_char c [] = (c ∷ []) ∷ []
push_char c (l ∷ ls) = (c ∷ l) ∷ ls

-- `s.splitlines()`; "\r\n" is one break, and a last line that is empty is none.
unfoldable pub splitlines : Text → List Text
unfolding nat_eq
splitlines [] = []
splitlines (c ∷ []) = if is_break c then [] ∷ [] else (c ∷ []) ∷ []
splitlines (c ∷ d ∷ s) =
    let rest = splitlines (d ∷ s) in
    let after = splitlines s in
    if c == 13 && d == 10 then [] ∷ after else if is_break c then [] ∷ rest else push_char c rest

-- What follows the first "❯" of a line, if there is one.
unfoldable pub after_prompt : Text → Option Text
unfolding nat_eq
after_prompt [] = none
after_prompt (c ∷ s) = let rest = after_prompt s in if c == 0x276f then some s else rest

-- `strip("\x00 ")` from the left
unfoldable pub drop_padding : Text → Text
unfolding nat_eq
drop_padding [] = []
drop_padding (c ∷ s) = let rest = drop_padding s in if c == 0 || c == b' ' then rest else c ∷ s

unfoldable pub strip_padding : Text → Text
unfolding drop_padding
strip_padding s = reverse (drop_padding (reverse (drop_padding s)))

-- `m.group(1).strip().strip("\x00 ").strip()`
unfoldable pub typed : Text → Text
unfolding strip_padding strip
typed rest = strip (strip_padding (strip rest))

-- The last line with a prompt, from the bottom of the lines given.
unfoldable pub last_prompt : List Text → Option Text
unfolding after_prompt
last_prompt [] = none
last_prompt (l ∷ ls) =
    let below = last_prompt ls in elim below [ some t ↦ some t | none ↦ after_prompt l ]

-- What stands in the compose box, where a prompt is seen in the last 25 lines.
unfoldable pub compose_text : Text → Option Text
unfolding last_prompt typed splitlines
compose_text screen = elim (last_prompt (last_n 25 (splitlines screen))) [
  | none ↦ none
  | some rest ↦ some (typed rest)
]

abbrev pub is_blank : Text → Bool
is_blank [] = true
is_blank (c ∷ s) = false

-- `_screen_compose_is_empty`
unfoldable pub screen_compose_is_empty : Text → Bool
screen_compose_is_empty screen =
    if is_blank screen
    then false
    else elim (compose_text screen) [ none ↦ false | some t ↦ is_blank t ]

-- `_screen_user_is_typing`
unfoldable pub screen_user_is_typing : Text → Bool
screen_user_is_typing screen =
    if is_blank screen
    then false
    else elim (compose_text screen) [ none ↦ false | some t ↦ not (is_blank t) ]

pub data Action : Type 0 where
  wake skip_typing wake_starved wait : Action

-- `_wake_action`
unfoldable pub wake_action : Text → ℕ → ℕ → Action
wake_action screen waited timeout =
    if screen_compose_is_empty screen
    then wake
    else if screen_user_is_typing screen
    then skip_typing
    else if leb timeout waited
    then wake_starved
    else wait

-- The character that `_sanitize_for_inject` writes for one of the body.
unfoldable pub clean : ℕ → ℕ
unfolding nat_eq
clean c =
    if c == 9 || c == 10 || c == 13 || c == 11
    then c
    else if ltb c 0x20 || c == 0x7f
    then b' '
    else c

-- `_sanitize_for_inject`
unfoldable pub sanitize_for_inject : Text → Text
unfolding clean
sanitize_for_inject = map clean

-- `_body_stuck_in_compose`
unfoldable pub stuck_marker : Text → Text
stuck_marker job_id = str "[teammate-mcp ASK " ++ job_id

-- The lines from the last one that shows the marker.
unfoldable pub from_last_marker : Text → List Text → Option (List Text)
unfolding has_text
from_last_marker marker [] = none
from_last_marker marker (l ∷ ls) =
    let below = from_last_marker marker ls in
    elim below [ some t ↦ some t | none ↦ if has_text l marker then some (l ∷ ls) else none ]

abbrev pub busy_markers : List Text
busy_markers =
    str "✻"
    ∷ str "⏺"
    ∷ str "✶"
    ∷ str "Worked for"
    ∷ str "Brewed for"
    ∷ str "Thinking"
    ∷ str "Running"
    ∷ str "thinking"
    ∷ str "running"
    ∷ []

-- `"\n".join(lines)`
unfoldable pub join_lines : List Text → Text
join_lines [] = []
join_lines (l ∷ []) = l
join_lines (l ∷ m ∷ ls) = l ++ (10 ∷ join_lines (m ∷ ls))

unfoldable pub body_stuck_in_compose : Text → Text → Bool
unfolding stuck_marker from_last_marker join_lines splitlines
body_stuck_in_compose content job_id =
    if not (has_text content (stuck_marker job_id))
    then false
    else elim (from_last_marker (stuck_marker job_id) (splitlines content)) [
      | none ↦ false
      | some lines ↦
          let tail = join_lines (last_n 12 lines) in
          if any (has_text tail) busy_markers then false else has_text tail (stuck_marker job_id)
    ]
