-- ===== src/Spawned.antt =====
-- src/teammate_mcp/spawn_track.py: the ledger of the panes that this program opened. A line that
-- is not JSON is `none`; `ts` and `pid` are not read back and left out.
pub mod Known
use teammate_mcp.Base.{
  if◌then◌else◌, Eq, contains, option_eq, nat_eq, text_eq, keep, ◌+◌, ◌-◌, ◌/◌, not, Option, none,
  some, List, [], ◌∷◌, ◌++◌, arith,
}
use teammate_mcp.Base.Text.{Text, upper, strip}
use teammate_mcp.Registry.{nonempty}

pub record Entry : Type 0 where
  pub session_id : Text
  pub spawned_by : Text

abbrev pub Ledger : Type 0
Ledger = List (Option Entry)

-- `sid.strip().upper()`
abbrev pub name_of : Text → Text
name_of session_id = upper (strip session_id)

-- The set as the list of its members, in the order of the lines.
unfoldable pub load : Ledger → List Text
load [] = []
load (none ∷ lines) = load lines
load (some e ∷ lines) =
    let rest = load lines in if nonempty e.session_id then name_of e.session_id ∷ rest else rest

unfoldable pub record_spawn : Ledger → Text → Text → Ledger
unfolding load
record_spawn lines session_id spawned_by =
    if contains (load lines) (name_of session_id)
    then lines
    else lines ++ (some (record { session_id = session_id; spawned_by = spawned_by }) ∷ [])

unfoldable pub filter_to_known : Ledger → List Text → List Text
unfolding load
filter_to_known lines session_ids = keep (λ sid. contains (load lines) (name_of sid)) session_ids
