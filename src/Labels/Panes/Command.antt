-- ===== src/Labels/Panes/Command.antt =====
-- src/teammate_mcp/cli.py: `register-pane`. The session's tail is given, after the look for a
-- stale id; how iTerm can be reached, and the panes that it lists at each attempt, are parameters.
-- The badge and the messages are not modelled.
use teammate_mcp.Base.{
  if◌then◌else◌, ◌==◌, option_eq, nat_eq, text_eq, take, first, ℕ, ◌≡◌, refl, Bool, true, false,
  not, ◌||◌, Option, none, some, List, [], ◌∷◌, arith,
}
use teammate_mcp.Base.Text.{Text, upper, ends_with}
use teammate_mcp.Base.Dict.{get, get-pop, NodupKeys}
use teammate_mcp.Registry.{
  Registry, mailbox, Rec, rec_eq, RegistryError, belongs_to_mailbox, nonempty, register_guard,
  register, prune_registry,
}
use teammate_mcp.Registry.Mailboxes.{prune_registry_keeps_mailbox}
use teammate_mcp.Mailbox.{Home, Box, is_empty_box, archive_label_mailbox}
use teammate_mcp.Address.{prune_dead, dead_labels}
use teammate_mcp.Alive.{Meets, prune_dead_cached, alive_session_ids_cached}
use teammate_mcp.Spawned.{Ledger, record_spawn}
use teammate_mcp.Labels.Panes.{
  Pane, register_via_daemon_or_direct, chosen_label, Registered, refused, registered, register_pane,
}

-- The API lists the panes at each attempt, or is shut to a sandbox, where osascript answers.
pub data Reach : Type 0 where
  api : List (List Pane) → Reach
  sandboxed : Option Pane → Reach
  unreachable : Reach

pub data End : Type 0 where
  exit : ℕ → End
  raised : RegistryError → End

pub record Setting : Type 0 where
  pub served : Bool
  pub now : ℕ
  pub pid : ℕ
  pub fallback : List Text
  pub meets : Meets
  pub renames : Text → Bool
  pub reach : Reach
  pub spawned_by : Text
  -- What others change between the choice of the label and the registration.
  pub meanwhile : Registry → Registry

abbrev pub is_me : Text → Pane → Bool
is_me sid_tail r =
    ends_with (upper r.session_id) (upper sid_tail) || upper r.session_id == upper sid_tail

-- The first attempt that shows the pane.
unfoldable pub find_me : Text → List (List Pane) → Option Pane
find_me sid_tail [] = none
find_me sid_tail (refs ∷ later) =
    let rest = find_me sid_tail later in
    elim (first (is_me sid_tail) refs) [ some me ↦ some me | none ↦ rest ]

unfoldable pub located : Text → Reach → Option Pane
unfolding find_me
located sid_tail (api attempts) = find_me sid_tail (take 8 attempts)
located sid_tail (sandboxed info) = info
located sid_tail unreachable = none

abbrev pub tracked : Setting → Home → Ledger → Pane → Registered → End × Home × Ledger
tracked s h ledger me (registered label d) =
    (exit 0, record h { registry = d }, record_spawn ledger me.session_id s.spawned_by)
tracked s h ledger me (refused e) = (raised e, h, ledger)
tracked s h ledger me _ = (exit 2, h, ledger)

abbrev pub attach : Setting → Home → Ledger → Text → Option Pane → End × Home × Ledger
attach s h ledger explicit_label none = (exit 2, h, ledger)
attach s h ledger explicit_label (some me) =
    tracked s h ledger me
      (register_pane s.served h.registry explicit_label me s.pid s.now s.meanwhile)

-- The prune, and the mailbox of the label that is about to be used, come before all else.
unfoldable pub cleared : Setting → Home → Text → Home
unfolding prune_dead_cached
cleared s h explicit_label =
    let pruned = (prune_dead_cached h true 30000 s.now 60000 s.fallback s.meets s.renames).0 in
    if nonempty explicit_label
    then archive_label_mailbox pruned explicit_label (s.renames explicit_label)
    else pruned

-- `_cmd_register_pane`
unfoldable pub cmd_register_pane : Setting → Home → Ledger → Text → Text → End × Home × Ledger
unfolding cleared located
cmd_register_pane s h ledger explicit_label sid_tail =
    if not (nonempty sid_tail)
    then (exit 2, h, ledger)
    else attach s (cleared s h explicit_label) ledger explicit_label (located sid_tail s.reach)

module _ (s : Setting) (h : Home) (l : Text) (r : Rec) (b : Box) where
  -- The prune finds nothing dead.
  abbrev pub AllAlive : Type 0
  AllAlive =
      dead_labels (alive_session_ids_cached true 30000 s.now s.fallback s.meets).sids s.now 60000
        h.registry
      ≡ []

  pruned_nothing :
      AllAlive
      → (prune_dead_cached h true 30000 s.now 60000 s.fallback s.meets s.renames).0 ≡ record h {
        registry =
            prune_registry
              (alive_session_ids_cached true 30000 s.now s.fallback s.meets).sids
              s.now
              60000
              h.registry;
      }
  unfolding prune_dead_cached prune_dead
  pruned_nothing a = rw a refl

  archived_full :
      (p : Home)
      → get p.boxes l ≡ some b
      → is_empty_box b ≡ false
      → ((archive_label_mailbox p l true).registry ≡ p.registry)
        × (get (archive_label_mailbox p l true).boxes l ≡ none)
        × ((archive_label_mailbox p l true).archived ≡ (l, b) ∷ p.archived)
  unfolding archive_label_mailbox
  archived_full p x y =
      (ground (arith, x, y), ground (arith, x, y, get-pop p.boxes l l), ground (arith, x, y))

  cleared_mailbox :
      NodupKeys h.registry
      → AllAlive
      → get h.registry l ≡ some r
      → r.session_id ≡ []
      → nonempty l ≡ true
      → get h.boxes l ≡ some b
      → is_empty_box b ≡ false
      → s.renames l ≡ true
      → (get (cleared s h l).registry l ≡ some r)
        × (get (cleared s h l).boxes l ≡ none)
        × ((cleared s h l).archived ≡ (l, b) ∷ h.archived)
  unfolding cleared
  cleared_mailbox n a g e f x y m =
      rw (f, pruned_nothing a)
        (let (p, q, z) = archived_full _ x y in
          (
            rw (m, p)
                (prune_registry_keeps_mailbox
                  (alive_session_ids_cached true 30000 s.now s.fallback s.meets).sids s.now 60000
                  h.registry l r n g e),
            rw m q,
            rw m z,
          ))

  refused_mailbox :
      (c : Home) (me : Pane)
      → get (s.meanwhile c.registry) l ≡ some r
      → r.transport ≡ some mailbox
      → nonempty l ≡ true
      → register_pane s.served c.registry l me s.pid s.now s.meanwhile ≡ refused belongs_to_mailbox
  unfolding register_pane chosen_label register_via_daemon_or_direct register register_guard
  refused_mailbox c me g t f = ground (arith, f, g, t)

  -- A `register-pane` for a label that belongs to a mailbox, where nothing else is pruned, the pane is
  -- found and others leave the label's record alone meanwhile, is refused; but the mailbox has been moved aside before, so its address has none
  -- of the mail that was waiting for it.
  pub cmd_register_pane_archives :
      (ledger : Ledger) (me : Pane) (sid_tail : Text)
      → NodupKeys h.registry
      → AllAlive
      → get h.registry l ≡ some r
      → r.session_id ≡ []
      → r.transport ≡ some mailbox
      → nonempty l ≡ true
      → nonempty sid_tail ≡ true
      → located sid_tail s.reach ≡ some me
      → get h.boxes l ≡ some b
      → is_empty_box b ≡ false
      → s.renames l ≡ true
      → ((d : Registry) → get d l ≡ some r → get (s.meanwhile d) l ≡ some r)
      → let (end, h', ledger') = cmd_register_pane s h ledger l sid_tail in
        (end ≡ raised belongs_to_mailbox)
        × (get h'.registry l ≡ some r)
        × (get h'.boxes l ≡ none)
        × (h'.archived ≡ (l, b) ∷ h.archived)
  unfolding cmd_register_pane
  cmd_register_pane_archives ledger me sid_tail n a g e t f w p x y m o =
      let c = cleared_mailbox n a g e f x y m in
      rw (w, p, refused_mailbox (cleared s h l) me (o (cleared s h l).registry c.0) t f)
        (refl, c.0, c.1, c.2)
