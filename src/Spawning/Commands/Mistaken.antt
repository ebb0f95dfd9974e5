-- ===== src/Spawning/Commands/Mistaken.antt =====
-- src/teammate_mcp/cli.py: what `close-pane` and `despawn` do to an address without a pane.
use teammate_mcp.Base.{
  Option-cases, option_eq, nat_eq, text_eq, ◌≡◌, refl, inl, inr, true, false, none, some, [], ◌∷◌,
  arith,
}
use teammate_mcp.Base.Text.{Text, upper}
use teammate_mcp.Base.Dict.{Dict, get, get-pop}
use teammate_mcp.Registry.{Rec, rec_eq, Registry, nonempty}
use teammate_mcp.Mailbox.{Home}
use teammate_mcp.Address.{unregister}
use teammate_mcp.Spawning.{Child, load_spawn_ledger}
use teammate_mcp.Spawning.Commands.{
  Outside, Shell, drop_label, despawn_one, despawn_all, despawn_targets, is_empty_dict, despawn,
}

drop_label_gone :
    (o : Outside) (h : Home) (l : Text)
    → o.daemon_enabled ≡ false
    → o.renames l ≡ true
    → get (drop_label o h l).registry l ≡ none
unfolding drop_label unregister
drop_label_gone o h l n r = elim (Option-cases (get h.boxes l)) [
  | inl f ↦ ground (arith, n, r, f, get-pop h.registry l l)
  | inr (b, f) ↦ ground (arith, n, r, f, get-pop h.registry l l)
]

upper_nil : upper [] ≡ []
unfolding upper
upper_nil = refl

not_empty : (d : Dict Child) (l : Text) (c : Child) → get d l ≡ some c → is_empty_dict d ≡ false
unfolding get
not_empty [] l c g = absurd (cc g)
not_empty (x ∷ d) l c g = refl

-- A `despawn` of a label that a pane-free address has taken since: the ledger's pane is asked to
-- close, and the new address is dropped from the registry.
despawn_drops_paneless :
    (o : Outside) (s : Shell) (c : Child) (r : Rec) (l : Text)
    → get (load_spawn_ledger s.ledger_file) l ≡ some c
    → nonempty c.session_id ≡ true
    → get s.home.registry l ≡ some r
    → r.session_id ≡ []
    → o.daemon_enabled ≡ false
    → o.renames l ≡ true
    → let res = despawn o s (record { do_all = false; do_gone = false; labels = l ∷ [] }) in
      (res.2 ≡ c.session_id ∷ []) × (get res.1.home.registry l ≡ none)
unfolding despawn
despawn_drops_paneless o s c r l g n k e off m =
    rw
      (
        not_empty (load_spawn_ledger s.ledger_file) l c g,
        despawn_targets,
        despawn_all,
        despawn_one,
        g,
        k,
        e,
        upper_nil,
        n,
      )
      (refl, drop_label_gone o s.home l off m)
