-- ===== src/Spawning.antt =====
-- src/teammate_mcp/cli.py: the ledger of `spawn`, the placement of the next pane, and the list of
-- spawned panes. Only the fields that the commands read are kept. Times are milliseconds.
pub mod Saved
pub mod Placed
pub mod Commands
use teammate_mcp.Base.{
  leb, if◌then◌else◌, is_some, Eq, ◌==◌, contains, option_eq, nat_eq, text_eq, keep, first, ℕ, ◌+◌,
  ◌-◌, ◌/◌, Bool, not, ◌&&◌, Option, none, some, List, [], ◌∷◌, ◌++◌, arith,
}
use teammate_mcp.Base.Sorting.{last_of, sort_by}
use teammate_mcp.Base.Text.{Text, upper, strip}
use teammate_mcp.Base.Dict.{Dict, get, put}
use teammate_mcp.Registry.{rec_eq, Registry, nonempty, rec_or_empty}

pub record Child : Type 0 where
  pub label : Option Text
  pub session_id : Text
  pub spawner_session_id : Text
  pub spawned_at : ℕ

-- A line of the file: an object, or what is no JSON.
pub data Line : Type 0 where
  bad : Line
  object : Child → Line

-- A label that is absent, no text or empty is passed over.
abbrev pub load_line : Dict Child → Line → Dict Child
load_line out bad = out
load_line out (object c) = elim c.label [
  | none ↦ out
  | some label ↦ if nonempty label then put out label c else out
]

unfoldable pub load_from : Dict Child → List Line → Dict Child
load_from out [] = out
load_from out (l ∷ lines) = load_from (load_line out l) lines

-- `_load_spawn_ledger`
unfoldable pub load_spawn_ledger : List Line → Dict Child
unfolding load_from
load_spawn_ledger lines = load_from [] lines

-- `_append_spawn_ledger`
unfoldable pub append_spawn_ledger : List Line → Child → List Line
append_spawn_ledger lines c = lines ++ (object c ∷ [])

-- `_save_spawn_ledger`
unfoldable pub save_spawn_ledger : Dict Child → List Line
save_spawn_ledger [] = []
save_spawn_ledger ((label, c) ∷ d) = object c ∷ save_spawn_ledger d

-- What follows the first ":", if there is one.
unfoldable pub after_colon : Text → Option Text
unfolding nat_eq
after_colon [] = none
after_colon (c ∷ s) = let rest = after_colon s in if c == b':' then some s else rest

-- `_normalize_term_session_id`
unfoldable pub normalize_term_session_id : Text → Text
unfolding after_colon strip
normalize_term_session_id raw = elim (after_colon (strip raw)) [
  | none ↦ strip raw
  | some tail ↦ strip tail
]

-- `_resolve_caller_session_id`; the two texts are `TEAMMATE_LABEL` and `TERM_SESSION_ID`.
unfoldable pub resolve_caller_session_id : Registry → Text → Text → Text
unfolding normalize_term_session_id
resolve_caller_session_id d teammate_label term_session_id =
    let label = strip teammate_label in
    let found = if nonempty label then (rec_or_empty (get d label)).session_id else [] in
    if nonempty found
    then upper (normalize_term_session_id found)
    else upper (normalize_term_session_id term_session_id)

-- The session ids of the registry, in capitals.
unfoldable pub live_sids : Registry → List Text
live_sids [] = []
live_sids ((l, r) ∷ d) = upper r.session_id ∷ live_sids d

abbrev pub values : Dict Child → List Child
values [] = []
values ((l, c) ∷ d) = c ∷ values d

-- A live child of the caller.
abbrev pub is_sibling : Text → List Text → Child → Bool
is_sibling caller live c =
    upper c.spawner_session_id == upper caller && contains live (upper c.session_id)

-- `siblings.sort(key=spawned_at)`
abbrev pub spawned_before : Child → Child → Bool
spawned_before c d = leb c.spawned_at d.spawned_at

pub data Placement : Type 0 where
  window split_v split_h : Placement

-- `_auto_placement`
unfoldable pub siblings : Dict Child → Registry → Text → List Child
unfolding live_sids
siblings ledger d caller = keep (is_sibling caller (live_sids d)) (values ledger)

unfoldable pub auto_placement : Dict Child → Registry → Text → Placement × Text
unfolding siblings normalize_term_session_id
auto_placement ledger d caller =
    if not (nonempty caller)
    then (window, [])
    else elim (last_of (sort_by spawned_before (siblings ledger d caller))) [
      | none ↦ (split_v, caller)
      | some c ↦ (split_h, upper (normalize_term_session_id c.session_id))
    ]

pub data Status : Type 0 where
  alive label_reused gone_pane : Status

-- The status of a row of `_cmd_spawned`.
unfoldable pub spawned_status : Registry → Text → Child → Status
spawned_status d label c =
    let sid = upper c.session_id in
    let reg_sid = upper (rec_or_empty (get d label)).session_id in
    if is_some (get d label)
    then (if nonempty sid && sid == reg_sid then alive else label_reused)
    else gone_pane
