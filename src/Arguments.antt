-- ===== src/Arguments.antt =====
-- src/teammate_mcp/cli.py: the arguments of `ask`. What standard input and a file hold are
-- parameters; the environment's default for `mailbox_only` is given. What is printed is not
-- modelled.
pub mod Words
use teammate_mcp.Base.{
  if◌then◌else◌, Eq, ◌==◌, option_eq, nat_eq, text_eq, length, drop, ◌+◌, ◌-◌, ◌/◌, Bool, true,
  false, not, ◌||◌, Option, none, some, List, [], ◌∷◌, ◌++◌, arith,
}
use teammate_mcp.Base.Text.{Text, str, strip, starts_with}
use teammate_mcp.Registry.{nonempty}

pub record Options : Type 0 where
  pub mailbox_only : Bool
  pub from_stdin : Bool
  pub body_file : Text
  pub args : List Text

-- What follows the prefix, where the text begins with it.
abbrev pub after_prefix : Text → Text → Text
after_prefix prefix s = drop (length prefix) s

-- A flag that takes no value of the list.
unfoldable pub one_word : Text → Options → Options
unfolding text_eq starts_with
one_word a o =
    if a == str "--no-wait" || a == str "--async" || a == str "--wait"
    then o
    else if a == str "--mailbox-only"
    then record o { mailbox_only = true }
    else if starts_with a (str "--timeout=")
    then o
    else if a == str "--stdin" || a == str "--body-from-stdin"
    then record o { from_stdin = true }
    else if starts_with a (str "--body-file=")
    then record o { body_file = after_prefix (str "--body-file=") a }
    else record o { args = o.args ++ (a ∷ []) }

abbrev pub is_timeout : Text → Bool
is_timeout a = a == str "--timeout" || a == str "-t"

-- The loop of `_cmd_ask` over its arguments. The last argument has no value behind it.
unfoldable pub parse_ask : List Text → Options → Options
unfolding one_word starts_with
parse_ask [] o = o
parse_ask (a ∷ []) o = if is_timeout a || a == str "--" then o else one_word a o
parse_ask (a ∷ b ∷ src) o =
    let after_value = parse_ask src o in
    let after_flag = parse_ask (b ∷ src) o in
    let with_file = parse_ask src (record o { body_file = b }) in
    let after_word = parse_ask (b ∷ src) (one_word a o) in
    if is_timeout a
    then (if starts_with b (str "--") then after_flag else after_value)
    else if a == str "--body-file"
    then with_file
    else if a == str "--"
    then record o { args = o.args ++ (b ∷ src) }
    else after_word

-- `" ".join(words)`
unfoldable pub join_words : List Text → Text
join_words [] = []
join_words (w ∷ []) = w
join_words (w ∷ v ∷ ws) = w ++ (b' ' ∷ join_words (v ∷ ws))

-- The call of `_ask_async`, or exit code 2.
pub data AskCall : Type 0 where
  usage : AskCall
  call : Text → Text → Bool → AskCall

abbrev pub call_unless_empty : Text → Text → Bool → AskCall
call_unless_empty target question mailbox_only =
    if nonempty question then call target question mailbox_only else usage

abbrev pub with_body : Options → Option Text → AskCall
with_body o none = usage
with_body o (some body) = elim o.args [
  | [] ↦ usage
  | ◌∷◌ target rest ↦ call_unless_empty target (strip body) o.mailbox_only
]

abbrev pub with_words : Options → AskCall
with_words o = elim o.args [
  | [] ↦ usage
  | ◌∷◌ target rest ↦ elim rest [
    | [] ↦ usage
    | ◌∷◌ w ws ↦ call_unless_empty target (strip (join_words (w ∷ ws))) o.mailbox_only
  ]
]

-- `_cmd_ask` up to the call.
unfoldable pub cmd_ask : Text → (Text → Option Text) → Bool → List Text → AskCall
unfolding parse_ask join_words strip
cmd_ask stdin file mailbox_only argv =
    let o =
      parse_ask argv
        (record { mailbox_only = mailbox_only; from_stdin = false; body_file = []; args = [] }) in
    if o.from_stdin
    then with_body o (some stdin)
    else if nonempty o.body_file
    then with_body o (file o.body_file)
    else with_words o
