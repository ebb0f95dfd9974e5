-- ===== src/Arguments/Words.antt =====
-- src/teammate_mcp/cli.py: the words of an `ask`.
use teammate_mcp.Base.{option_eq, Bool, not}
use teammate_mcp.Base.Text.{Text, str, starts_with}

-- A word that no flag begins like.
abbrev pub is_plain : Text → Bool
is_plain a = not (starts_with a (str "-"))
