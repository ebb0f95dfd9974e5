-- ===== src/Address/Custody.antt =====
-- src/teammate_mcp/registry.py: what becomes of the mail of a released label.
use teammate_mcp.Base.{
  option_eq, nat_eq, text_eq, ℕ, ◌≡◌, refl, sym, ◌∙◌, subst, Bool, not, ◌&&◌, some, List, [], ◌∷◌,
  arith,
}
use teammate_mcp.Base.Text.{Text}
use teammate_mcp.Base.Dict.{get, pop, NodupKeys, sift}
use teammate_mcp.Registry.{rec_eq, nonempty, is_dead}
use teammate_mcp.Registry.Mailboxes.{get-prune_registry}
use teammate_mcp.Registry.Consistent.{IsConsistent, pop-IsConsistent}
use teammate_mcp.Mailbox.{Home, archive_label_mailbox}
use teammate_mcp.Address.{unregister, archive_all, prune_dead}

pub unregister-IsConsistent :
    (h h' : Home) (label : Text) (renames : Bool)
    → IsConsistent h.registry
    → unregister h label renames ≡ some h'
    → IsConsistent h'.registry
unregister-IsConsistent h h' label renames c done =
    subst IsConsistent (sym (released done)) (pop-IsConsistent h.registry label c)
  where
    released : unregister h label renames ≡ some h' → h'.registry ≡ pop h.registry label
    released e = unfold unregister in ground (arith, e)

-- Archiving moves mail only.
pub registry-archive :
    (h : Home) (l : Text) (renames : Bool)
    → (archive_label_mailbox h l renames).registry ≡ h.registry
unfolding archive_label_mailbox
registry-archive h l renames = ground arith

pub registry-archive_all :
    (h : Home) (ls : List Text) (renames : Text → Bool)
    → (archive_all h ls renames).registry ≡ h.registry
registry-archive_all h [] renames = refl
registry-archive_all h (l ∷ ls) renames =
    registry-archive_all (archive_label_mailbox h l (renames l)) ls renames
    ∙ registry-archive h l (renames l)

pub get-prune_dead :
    (h : Home) (alive : List Text) (now grace : ℕ) (renames : Text → Bool) (j : Text)
    → NodupKeys h.registry
    → get (prune_dead h alive now grace renames).0.registry j
      ≡ sift (λ r. not (nonempty alive && is_dead alive now grace r)) (get h.registry j)
unfolding prune_dead
get-prune_dead h alive now grace renames j n =
    rw registry-archive_all (get-prune_registry alive now grace h.registry j n)
