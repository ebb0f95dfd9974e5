-- ===== src/Tests/Commands.antt =====
-- The commands on panes and mail, the registration of a pane, and the text of a compose box.
use teammate_mcp.Base.{
  if◌then◌else◌, is_some, option_eq, nat_eq, text_eq, any, All, ℕ, ◌≡◌, refl, true, false, ◌&&◌,
  none, some, List, [], ◌∷◌, arith,
}
use teammate_mcp.Base.Text.{
  Text, str, upper_char, upper, lower, strip, starts_with, ends_with, has_text,
}
use teammate_mcp.Base.Dict.{Dict, get, put, keys, keep_items, find_item}
use teammate_mcp.Registry.{
  same_pane, Rec, rec_eq, no_rec, Registry, no_extra, belongs_to_mailbox, register_guard,
  drop_collisions, new_rec, register, is_dead,
}
use teammate_mcp.Registry.Consistent.{IsConsistent}
use teammate_mcp.Mailbox.{Message, bare, Box, empty_box}
use teammate_mcp.Address.{dead_labels}
use teammate_mcp.Alive.{alive_session_ids_cached}
use teammate_mcp.Spawned.{Ledger}
use teammate_mcp.Spawning.{Child, Line, bad, object, load_from, load_spawn_ledger, auto_placement}
use teammate_mcp.Spawning.Placed.{IsPlaced, auto_placement-IsPlaced}
use teammate_mcp.Spawning.Commands.{Outside, Shell, Flags, despawn_targets, despawn}
use teammate_mcp.Spawning.Commands.Safe.{IsSpared, IsOwn, despawn_safe}
use teammate_mcp.Spawning.Commands.Swept.{swept, despawn_ledger}
use teammate_mcp.Replies.{next_reply}
use teammate_mcp.Replies.Oldest.{IsOldest, next_reply-IsOldest}
use teammate_mcp.Iterm.{
  drop_while, strip_ansi, strip_compose_padding, compose_line, is_edge, false_positives, trim_text,
  extract_compose,
}
use teammate_mcp.Screen.{splitlines, join_lines}
use teammate_mcp.Iterm.Typed.{IsShown, compose_box, HasNoPrompt, extract_compose-box}
use teammate_mcp.Labels.{next_auto_label, classify, numbered, first_free}
use teammate_mcp.Queue.{digits, width}
use teammate_mcp.Labels.Panes.{
  Pane, register_via_daemon_or_direct, existing_label, chosen_label, registered, register_pane,
}
use teammate_mcp.Labels.Panes.Stable.{new_record, register_pane_stable, register_pane_displaces}
use teammate_mcp.Labels.Panes.Command.{
  api, raised, Setting, find_me, located, cmd_register_pane, AllAlive, cmd_register_pane_archives,
}
use teammate_mcp.Tests.Data.{
  mail_rec, pane_label, mail_label, registry, mail_box, home, registry_nodup,
}

-- Two children of the pane "me", of which the second one is open.
abbrev child : Text → Text → ℕ → Child
child l sid at = record {
  label = some l;
  session_id = sid;
  spawner_session_id = str "ME";
  spawned_at = at;
}

abbrev lines : List Line
lines =
    object (child (str "claude2") (str "zz-9") 1)
    ∷ bad
    ∷ object (child pane_label (str "ab-12") 2)
    ∷ []

abbrev ledger : Dict Child
ledger = load_spawn_ledger lines

auto_placement-IsPlaced_example :
    IsPlaced ledger registry (str "ME") (auto_placement ledger registry (str "ME"))
auto_placement-IsPlaced_example = auto_placement-IsPlaced ledger registry (str "ME")

abbrev outside : Outside
outside = record {
  closes = λ s. true;
  daemon_enabled = false;
  served = λ l. true;
  renames = λ l. true;
}

abbrev shell : Shell
shell = record { home = home; ledger_file = lines }

abbrev flags : Flags
flags = record { do_all = true; do_gone = false; labels = [] }

despawn_safe_example :
    All (IsOwn home.registry ledger) (despawn outside shell flags).2
    × ((j : Text)
        → IsSpared home.registry ledger j
        → (get (despawn outside shell flags).1.home.registry j ≡ get home.registry j)
          × (get (despawn outside shell flags).1.home.boxes j ≡ get home.boxes j))
despawn_safe_example = despawn_safe outside shell flags

targets_all : despawn_targets flags registry ledger ≡ some (str "claude2" ∷ pane_label ∷ [])
unfolding despawn_targets load_spawn_ledger load_from put keys text_eq
targets_all = refl

despawn_ledger_example :
    get (load_spawn_ledger (despawn outside shell flags).1.ledger_file) pane_label
    ≡ swept registry false pane_label (get ledger pane_label)
unfolding text_eq
despawn_ledger_example =
    despawn_ledger outside shell flags (str "claude2" ∷ pane_label ∷ []) pane_label targets_all

-- A mailbox is the first address of the registry.
abbrev mail_shell : Shell
mail_shell = record {
  home = record home { registry = (mail_label, mail_rec) ∷ [] };
  ledger_file = [];
}

-- Two replies from "b", the older one processed already.
abbrev reply_at : Text → ℕ → Message
reply_at id at = record (bare id) { from_ = some (str "b"); created_at = some at }

abbrev replies : Box
replies = record empty_box {
  inbox = (str "j2", reply_at (str "j2") 9) ∷ [];
  processed = (str "j1", reply_at (str "j1") 4) ∷ [];
}

next_reply-IsOldest_example :
    let wanted = str "b" ∷ [] in
    IsOldest wanted replies (next_reply true wanted replies).1
    × ((next_reply true wanted replies).0
        ≡ (if is_some (next_reply true wanted replies).1 then 0 else 1))
    × ((true && is_some (next_reply true wanted replies).1) ≡ false
        → (next_reply true wanted replies).2 ≡ replies)
next_reply-IsOldest_example = next_reply-IsOldest (str "b" ∷ []) true replies

-- A box of two lines with a screen line above and the status below.
abbrev screen_lines : List Text
screen_lines =
    str "done" ∷ compose_box (str "fix") (str "  tests" ∷ []) (str "? for shortcuts" ∷ [])

abbrev screen : Text
screen = join_lines screen_lines

screen_is_split : splitlines screen ≡ screen_lines
unfolding splitlines join_lines nat_eq
screen_is_split = refl

tests-IsShown : IsShown (str "  tests")
unfolding is_edge strip_compose_padding drop_while starts_with has_text lower nat_eq
tests-IsShown = record { full = refl; inside = refl; plain = refl; unpadded = refl }

no_prompt_below : HasNoPrompt (str "? for shortcuts" ∷ [])
unfolding compose_line drop_while nat_eq
no_prompt_below = (refl, tt)

fix_is_plain : strip_compose_padding (strip_ansi (str "fix")) ≡ str "fix"
unfolding strip_ansi strip_compose_padding nat_eq
fix_is_plain = refl

text_is_trim :
    trim_text (join_lines (str "fix" ∷ str "  tests" ∷ []))
    ≡ join_lines (str "fix" ∷ str "  tests" ∷ [])
unfolding trim_text join_lines nat_eq
text_is_trim = refl

text_is_own : any (has_text (join_lines (str "fix" ∷ str "  tests" ∷ []))) false_positives ≡ false
unfolding has_text join_lines nat_eq
text_is_own = refl

extract_compose-box_example :
    extract_compose (some screen) ≡ join_lines (str "fix" ∷ str "  tests" ∷ [])
extract_compose-box_example =
    extract_compose-box screen (str "fix") (str "done" ∷ []) (str "  tests" ∷ [])
      (str "? for shortcuts" ∷ []) screen_is_split (omega arith) no_prompt_below fix_is_plain
      (tests-IsShown, tt) text_is_trim text_is_own

-- A pane that is new, in a registry with no other.
abbrev me : Pane
me = record { session_id = str "ab-12"; name = str "Claude Code"; job = str "zsh"; cwd = none }

no_records : IsConsistent []
unfolding get
no_records = record {
  nodup = tt;
  panes = λ j k r s e f g. absurd (cc e);
  threads = λ j k r s e f g i. absurd (cc e);
}

abbrev me_registry : Registry
me_registry =
    (str "claude1", new_rec no_rec (str "claude1") (str "ab-12") 7 (str "zsh") none no_extra 5) ∷ []

me_is_registered : register_pane true [] [] me 7 5 (λ d. d) ≡ registered (str "claude1") me_registry
unfolding register_pane register get put register_guard new_rec text_eq nat_eq chosen_label
    register_via_daemon_or_direct drop_collisions keep_items find_item existing_label
    next_auto_label classify numbered first_free keys has_text starts_with lower digits width
me_is_registered = refl

register_pane_stable_example :
    IsConsistent me_registry
    × (get me_registry (str "claude1")
        ≡ some (new_record true [] me_registry [] (str "claude1") me 7 5 (λ d. d)))
    × ((again : Pane)
        → again.session_id ≡ str "ab-12"
        → chosen_label me_registry [] again ≡ str "claude1")
    × (◌≡◌ {A = Text} [] []
        → existing_label [] (str "ab-12") ≡ none
        → get {V = Rec} [] (str "claude1") ≡ none)
register_pane_stable_example =
    register_pane_stable true [] me_registry [] (str "claude1") me 7 5 (λ d. d) no_records refl refl
      me_is_registered

-- Another pane registers while the first one chooses its label.
abbrev rival_registry : Registry
rival_registry =
    (str "claude1", new_rec no_rec (str "claude1") (str "cd-34") 8 (str "zsh") none no_extra 4) ∷ []

rival-IsConsistent : IsConsistent rival_registry
unfolding get
rival-IsConsistent = record {
  nodup = (refl, tt);
  panes = λ j k r s e f g. ground (arith, e, f);
  threads = λ j k r s e f g i. ground (arith, e, f);
}

me_displaces :
    register_pane true [] [] me 7 5 (λ d. rival_registry) ≡ registered (str "claude1") me_registry
unfolding register_pane register get put register_guard new_rec text_eq nat_eq chosen_label
    register_via_daemon_or_direct drop_collisions keep_items find_item existing_label
    next_auto_label classify numbered first_free keys has_text starts_with lower digits width upper
me_displaces = refl

register_pane_displaces_example : same_pane (str "cd-34") (str "ab-12") ≡ false
unfolding new_rec get text_eq nat_eq upper
register_pane_displaces_example =
    register_pane_displaces true [] me_registry [] (str "claude1") me 7 5 (λ d. rival_registry)
      (new_rec no_rec (str "claude1") (str "cd-34") 8 (str "zsh") none no_extra 4)
      rival-IsConsistent me_displaces refl refl refl (str "claude1")
      (new_rec no_rec (str "claude1") (str "ab-12") 7 (str "zsh") none no_extra 5) refl

abbrev setting : Setting
setting = record {
  served = true;
  now = 9000;
  pid = 7;
  fallback = [];
  meets = record {
    first_read = none;
    lock_free = true;
    second_read = none;
    osascript = str "AB-12" ∷ [];
  };
  renames = λ l. true;
  reach = api ((me ∷ []) ∷ []);
  spawned_by = [];
  meanwhile = λ d. d;
}

abbrev no_spawns : Ledger
no_spawns = []

all_alive : AllAlive setting home mail_label mail_rec mail_box
unfolding alive_session_ids_cached dead_labels keys keep_items is_dead upper upper_char strip
    text_eq nat_eq
all_alive = refl

located-me : located (str "ab-12") (api ((me ∷ []) ∷ [])) ≡ some me
unfolding located find_me ends_with text_eq upper
located-me = refl

cmd_register_pane_archives_example :
    let (end, h', ledger') = cmd_register_pane setting home no_spawns mail_label (str "ab-12") in
    (end ≡ raised belongs_to_mailbox)
    × (get h'.registry mail_label ≡ some mail_rec)
    × (get h'.boxes mail_label ≡ none)
    × (h'.archived ≡ (mail_label, mail_box) ∷ [])
unfolding get text_eq
cmd_register_pane_archives_example =
    cmd_register_pane_archives setting home mail_label mail_rec mail_box no_spawns me (str "ab-12")
      registry_nodup all_alive refl refl refl refl refl located-me refl refl refl (λ d e. e)
