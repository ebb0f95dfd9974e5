-- ===== src/Spawning/Commands.antt =====
-- src/teammate_mcp/cli.py: `close-pane` and `despawn`. What iTerm says to a close, and whether the
-- daemon serves a request and the file system a move, are parameters. Messages are not modelled;
-- the panes asked to close are a log.
pub mod Safe
pub mod Swept
pub mod Mistaken
use teammate_mcp.Base.{
  ltb, leb, if◌then◌else◌, is_some, Eq, ◌==◌, option_eq, nat_eq, text_eq, length, drop, all, ℕ, ◌+◌,
  ◌-◌, ◌/◌, Bool, true, false, not, ◌&&◌, ◌||◌, Option, none, some, List, [], ◌∷◌, ◌++◌, arith,
}
use teammate_mcp.Base.Text.{Text, between, upper, strip, starts_with}
use teammate_mcp.Base.Dict.{Dict, get, pop, keys, find_item}
use teammate_mcp.Registry.{closed, Rec, rec_eq, Registry, ok, nonempty, rec_or_empty}
use teammate_mcp.Mailbox.{Home}
use teammate_mcp.Address.{unregister}
use teammate_mcp.Spawning.{Child, Line, load_spawn_ledger, save_spawn_ledger}

pub record Outside : Type 0 where
  pub closes : Text → Bool
  pub daemon_enabled : Bool
  pub served : Text → Bool
  pub renames : Text → Bool

-- The files that the commands work on.
pub record Shell : Type 0 where
  pub home : Home
  pub ledger_file : List Line

abbrev pub home_or : Home → Option Home → Home
home_or h none = h
home_or h (some h') = h'

-- Both ways to drop a label, through the daemon and directly, swallow every error.
unfoldable pub drop_label : Outside → Home → Text → Home
drop_label o h label =
    let done = home_or h (unregister h label (o.renames label)) in
    if o.daemon_enabled && not (o.served label) then h else done

-- What `close-pane` takes its target for: the pane's id and the label to drop.
abbrev pub is_hex : ℕ → Bool
is_hex c = between b'A' b'F' c || between b'0' b'9' c || c == b'-'

abbrev pub pane_match : Text → Text → Rec → Bool
pane_match target_up l r =
    let rs = upper r.session_id in
    rs == target_up || starts_with rs target_up || starts_with target_up rs

-- A target that is no label: an entry whose id it matches, or else an id of its own.
abbrev pub raw_sid : Text → Text
raw_sid target =
    let target_up = upper target in
    if leb 8 (length (strip target_up)) && all is_hex (strip target_up) then target else []

abbrev pub sid_or_raw : Text → Text → Text
sid_or_raw target sid = if nonempty sid then sid else raw_sid target

unfoldable pub resolve_target : Registry → Text → Text × Text
resolve_target d target = elim (get d target) [
  | some r ↦ (strip r.session_id, target)
  | none ↦ elim (find_item (pane_match (strip (upper target))) d) [
    | some (l, r) ↦ (sid_or_raw target r.session_id, l)
    | none ↦ (raw_sid target, [])
  ]
]

-- `if label_to_drop in ledger`
abbrev pub forget : List Line → Text → List Line
forget lines label =
    let ledger = load_spawn_ledger lines in
    if is_some (get ledger label) then save_spawn_ledger (pop ledger label) else lines

abbrev pub after_close : Outside → Shell → Bool → Text → Shell
after_close o s keep_label label =
    if not keep_label && nonempty label
    then record { home = drop_label o s.home label; ledger_file = forget s.ledger_file label }
    else s

-- The exit code, the files, and the panes asked to close.
unfoldable pub close_pane : Outside → Shell → Text → Bool → ℕ × Shell × List Text
unfolding resolve_target drop_label
close_pane o s target keep_label =
    let (sid, label) = resolve_target s.home.registry target in
    if not (nonempty sid)
    then (2, s, [])
    else (if o.closes sid then 0 else 1, after_close o s keep_label label, sid ∷ [])

pub record Tally : Type 0 where
  pub closed : ℕ
  pub not_found : ℕ
  pub skipped : ℕ
  pub purged : ℕ

-- The loop of `despawn`: the ledger, the disk, the panes asked to close, and the counts.
pub record Sweep : Type 0 where
  pub ledger : Dict Child
  pub home : Home
  pub closing : List Text
  pub tally : Tally

-- `(live.get(label, {}).get("session_id") or "").upper()`
abbrev pub live_sid : Registry → Text → Text
live_sid live label = upper (rec_or_empty (get live label)).session_id

-- The label is registered for another pane.
abbrev pub is_reused : Registry → Text → Child → Bool
is_reused live label c =
    nonempty (live_sid live label)
    && nonempty (upper c.session_id)
    && not (live_sid live label == upper c.session_id)

abbrev pub close_child : Outside → Text → Child → Sweep → Sweep
close_child o label c s =
    let t = s.tally in
    let ok = nonempty c.session_id && o.closes c.session_id in
    record {
      ledger = pop s.ledger label;
      home = drop_label o s.home label;
      closing = if nonempty c.session_id then s.closing ++ (c.session_id ∷ []) else s.closing;
      tally =
          if ok
          then record t { closed = t.closed + 1 }
          else record t { not_found = t.not_found + 1 };
    }

unfoldable pub despawn_one : Outside → Registry → Bool → Text → Sweep → Sweep
unfolding drop_label
despawn_one o live do_gone label s =
    let t = s.tally in
    elim (get s.ledger label) [
      | none ↦ record s { tally = record t { skipped = t.skipped + 1 } }
      | some c ↦
          if is_reused live label c
          then (if do_gone
              then record s {
                ledger = pop s.ledger label;
                tally = record t { purged = t.purged + 1 };
              }
              else record s { tally = record t { skipped = t.skipped + 1 } })
          else close_child o label c s
    ]

unfoldable pub despawn_all : Outside → Registry → Bool → List Text → Sweep → Sweep
unfolding despawn_one
despawn_all o live do_gone [] s = s
despawn_all o live do_gone (l ∷ labels) s =
    despawn_all o live do_gone labels (despawn_one o live do_gone l s)

-- The entries that `--gone` takes for gone.
unfoldable pub gone_labels : Registry → Dict Child → List Text
gone_labels live [] = []
gone_labels live ((label, c) ∷ d) =
    let rest = gone_labels live d in
    if not (is_some (get live label) && upper c.session_id == live_sid live label)
    then label ∷ rest
    else rest

pub record Flags : Type 0 where
  pub do_all : Bool
  pub do_gone : Bool
  pub labels : List Text

-- `none` is a call with nothing to despawn.
unfoldable pub despawn_targets : Flags → Registry → Dict Child → Option (List Text)
unfolding gone_labels
despawn_targets f live ledger =
    if f.do_all
    then some (keys ledger)
    else if f.do_gone
    then some (gone_labels live ledger)
    else elim f.labels [ [] ↦ none | ◌∷◌ l ls ↦ some (l ∷ ls) ]

abbrev pub no_tally : Tally
no_tally = record { closed = 0; not_found = 0; skipped = 0; purged = 0 }

abbrev pub is_empty_dict : Dict Child → Bool
is_empty_dict [] = true
is_empty_dict (x ∷ d) = false

abbrev pub finished : Shell → Sweep → ℕ × Shell × List Text
finished s w = (
  if ltb 0 (w.tally.closed + w.tally.not_found + w.tally.purged) then 0 else 1,
  record { home = w.home; ledger_file = save_spawn_ledger w.ledger },
  w.closing,
)

-- The exit code, the files, and the panes asked to close.
unfoldable pub despawn : Outside → Shell → Flags → ℕ × Shell × List Text
unfolding despawn_all despawn_targets
despawn o s f =
    let ledger = load_spawn_ledger s.ledger_file in
    let live = s.home.registry in
    if is_empty_dict ledger then (0, s, []) else elim (despawn_targets f live ledger) [
      | none ↦ (2, s, [])
      | some targets ↦ finished s (
          despawn_all o live f.do_gone targets
            (record { ledger = ledger; home = s.home; closing = []; tally = no_tally }))
    ]
