-- ===== src/Address.antt =====
-- Releasing an address: `unregister` and `prune_dead` of src/teammate_mcp/registry.py, which move
-- the mailbox aside. `renames` tells whether the file system makes the move.
pub mod Custody
use teammate_mcp.Base.{
  if◌then◌else◌, is_some, Eq, option_eq, nat_eq, text_eq, ℕ, ◌-◌, ◌/◌, Bool, ◌||◌, Option, none,
  some, List, [], ◌∷◌, arith,
}
use teammate_mcp.Base.Text.{Text}
use teammate_mcp.Base.Dict.{get, pop, keys, keep_items}
use teammate_mcp.Registry.{
  Rec, Registry, is_mailbox, is_channel, rec_or_empty, is_dead, prune_registry,
}
use teammate_mcp.Mailbox.{Home, archive_label_mailbox}

-- The mailbox of a pane-free or native address is archived with its label.
abbrev pub owns_mail : Rec → Bool
owns_mail r = is_mailbox r.transport || is_channel r.transport || is_some r.channel

-- `none` is the error of the move, and then nothing is released.
unfoldable pub unregister : Home → Text → Bool → Option Home
unregister h label renames =
    let released = record h { registry = pop h.registry label } in
    if owns_mail (rec_or_empty (get h.registry label))
    then elim (get h.boxes label) [
      | none ↦ some released
      | some b ↦
          if renames
          then some
              (record released { boxes = pop h.boxes label; archived = (label, b) ∷ h.archived })
          else none
    ]
    else some released

-- The labels that `prune_dead` removes, in the registry's order.
unfoldable pub dead_labels : List Text → ℕ → ℕ → Registry → List Text
dead_labels [] now grace d = []
dead_labels (s ∷ alive) now grace d = keys (keep_items (λ l r. is_dead (s ∷ alive) now grace r) d)

abbrev pub archive_all : Home → List Text → (Text → Bool) → Home
archive_all h [] renames = h
archive_all h (l ∷ labels) renames =
    archive_all (archive_label_mailbox h l (renames l)) labels renames

unfoldable pub prune_dead : Home → List Text → ℕ → ℕ → (Text → Bool) → Home × List Text
prune_dead h alive now grace renames =
    let removed = dead_labels alive now grace h.registry in
    let pruned = record h { registry = prune_registry alive now grace h.registry } in
    (archive_all pruned removed renames, removed)
