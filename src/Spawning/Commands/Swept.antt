-- ===== src/Spawning/Commands/Swept.antt =====
-- src/teammate_mcp/cli.py: the spawn ledger after a `despawn`.
use teammate_mcp.Base.{
  if◌then◌else◌, Bool-cases, Option-cases, ◌==◌, contains, option_eq, nat_eq, text_eq, ◌≡◌, refl,
  ap, ◌∙◌, inl, inr, Bool, true, false, not, ◌&&◌, ◌||◌, Option, none, some, List, [], ◌∷◌, arith,
}
use teammate_mcp.Base.Text.{Text}
use teammate_mcp.Base.Dict.{Dict, get, get-pop}
use teammate_mcp.Registry.{rec_eq, Registry}
use teammate_mcp.Spawning.{Child, load_spawn_ledger}
use teammate_mcp.Spawning.Commands.{
  Outside, Shell, Sweep, is_reused, despawn_one, despawn_all, Flags, despawn_targets, no_tally,
  is_empty_dict, despawn,
}
use teammate_mcp.Spawning.Saved.{IsKeyed, load_spawn_ledger-IsKeyed, pop-IsKeyed, load-save}
use teammate_mcp.Spawning.Commands.Safe.{
  IsStep, idle_step, purge_step, close_step, despawn_one-IsStep,
}

-- What is left of a target's entry: all of it if the label is another pane's and `--gone` is not
-- given.
abbrev pub swept : Registry → Bool → Text → Option Child → Option Child
swept live do_gone j none = none
swept live do_gone j (some c) = if is_reused live j c && not do_gone then some c else none

swept_idem :
    (live : Registry) (g : Bool) (j : Text) (e : Option Child)
    → swept live g j (swept live g j e) ≡ swept live g j e
swept_idem live g j none = refl
swept_idem live g j (some c) = ground arith

abbrev swept_if : Registry → Bool → Bool → Text → Option Child → Option Child
swept_if live g b j e = if b then swept live g j e else e

module _ (o : Outside) (live : Registry) (g : Bool) where
  get-despawn_one :
      (l j : Text) (s : Sweep)
      → get (despawn_one o live g l s).ledger j ≡ swept_if live g (j == l) j (get s.ledger j)
  unfolding despawn_one
  get-despawn_one l j s = elim (Option-cases (get s.ledger l)) [
    | inl e ↦ ground (arith, e)
    | inr (c, e) ↦ ground (arith, e, get-pop s.ledger l j)
  ]

  get-despawn_all :
      (labels : List Text) (j : Text) (s : Sweep)
      → get (despawn_all o live g labels s).ledger j
        ≡ swept_if live g (contains labels j) j (get s.ledger j)
  unfolding despawn_all
  get-despawn_all [] j s = refl
  get-despawn_all (l ∷ labels) j s =
      get-despawn_all labels j (despawn_one o live g l s)
      ∙ ap (swept_if live g (contains labels j) j) (get-despawn_one l j s)
      ∙ both (j == l) (contains labels j) (get s.ledger j)
    where
      both :
          (a b : Bool) (e : Option Child)
          → swept_if live g b j (swept_if live g a j e) ≡ swept_if live g (a || b) j e
      both true true e = swept_idem live g j e
      both true false e = refl
      both false b e = refl

  step-IsKeyed :
      (l : Text) (s s' : Sweep) → IsStep o live g l s s' → IsKeyed s.ledger → IsKeyed s'.ledger
  step-IsKeyed l s _ (idle_step t) i = i
  step-IsKeyed l s _ (purge_step t) i = pop-IsKeyed s.ledger l i
  step-IsKeyed l s _ (close_step c e r) i = pop-IsKeyed s.ledger l i

  despawn_all-IsKeyed :
      (labels : List Text) (s : Sweep)
      → IsKeyed s.ledger
      → IsKeyed (despawn_all o live g labels s).ledger
  unfolding despawn_all
  despawn_all-IsKeyed [] s i = i
  despawn_all-IsKeyed (l ∷ labels) s i =
      despawn_all-IsKeyed labels (despawn_one o live g l s)
        (step-IsKeyed l s (despawn_one o live g l s) (despawn_one-IsStep o live g l s) i)

swept-empty :
    (live : Registry) (g : Bool) (j : Text) (d : Dict Child) (b : Bool)
    → is_empty_dict d ≡ true
    → get d j ≡ swept_if live g b j (get d j)
unfolding get
swept-empty live g j [] true e = refl
swept-empty live g j [] false e = refl
swept-empty live g j (x ∷ d) b e = absurd (cc e)

-- The ledger that the next command reads after a `despawn`: a target's entry is gone, but for one
-- whose label is registered for another pane where `--gone` is not given; every other label has the
-- entry it had before.
pub despawn_ledger :
    (o : Outside) (s : Shell) (f : Flags) (targets : List Text) (j : Text)
    → despawn_targets f s.home.registry (load_spawn_ledger s.ledger_file) ≡ some targets
    → get (load_spawn_ledger (despawn o s f).1.ledger_file) j ≡ (
        if contains targets j
        then swept s.home.registry f.do_gone j (get (load_spawn_ledger s.ledger_file) j)
        else get (load_spawn_ledger s.ledger_file) j)
unfolding despawn
despawn_ledger o s f targets j t =
    let ledger = load_spawn_ledger s.ledger_file in
    let start : Sweep = record { ledger = ledger; home = s.home; closing = []; tally = no_tally } in
    elim (Bool-cases (is_empty_dict ledger)) [
      | inl e ↦ rw e (swept-empty s.home.registry f.do_gone j ledger (contains targets j) e)
      | inr e ↦
          rw (e, t)
            (ap (λ d. get d j)
                (load-save (despawn_all o s.home.registry f.do_gone targets start).ledger (
                  despawn_all-IsKeyed o s.home.registry f.do_gone targets start
                    (load_spawn_ledger-IsKeyed s.ledger_file)))
              ∙ get-despawn_all o s.home.registry f.do_gone targets j start)
    ]
