-- ===== src/Spawning/Commands/Safe.antt =====
-- src/teammate_mcp/cli.py: what `despawn` closes, and whose registration it drops.
use teammate_mcp.Base.{
  Bool-cases, Option-cases, ◌==◌, option_eq, nat_eq, text_eq, All, ◌≡◌, refl, ◌∙◌, inl, inr, Bool,
  true, false, some, List, [], ◌∷◌, ◌++◌, arith,
}
use teammate_mcp.Base.Text.{Text}
use teammate_mcp.Base.Dict.{Dict, get, pop, get-pop}
use teammate_mcp.Registry.{rec_eq, Registry, nonempty}
use teammate_mcp.Mailbox.{Home}
use teammate_mcp.Address.{unregister}
use teammate_mcp.Spawning.{Child, load_spawn_ledger}
use teammate_mcp.Spawning.Commands.{
  Outside, Shell, drop_label, Tally, Sweep, is_reused, close_child, despawn_one, despawn_all, Flags,
  despawn_targets, is_empty_dict, despawn,
}

drop_label_others :
    (o : Outside) (h : Home) (l j : Text)
    → (l == j) ≡ false
    → (get (drop_label o h l).registry j ≡ get h.registry j)
      × (get (drop_label o h l).boxes j ≡ get h.boxes j)
unfolding drop_label unregister
drop_label_others o h l j n = elim (Option-cases (get h.boxes l)) [
  | inl e ↦ ground (arith, e, n, get-pop h.registry l j, get-pop h.boxes l j)
  | inr (b, e) ↦ ground (arith, e, n, get-pop h.registry l j, get-pop h.boxes l j)
]

module _ (live : Registry) (ledger : Dict Child) where
  -- The ledger has no entry of the label, or one of another pane.
  abbrev pub IsSpared : Text → Type 0
  IsSpared j = (c : Child) → get ledger j ≡ some c → is_reused live j c ≡ true

  -- A pane that may be closed: that of an entry whose label is not registered for another pane.
  abbrev pub IsOwn : Text → Type 0
  IsOwn sid =
      (k : Text) × (c : Child) × (get ledger k ≡ some c)
      × (c.session_id ≡ sid)
      × (is_reused live k c ≡ false)

module _ (o : Outside) (live : Registry) (do_gone : Bool) where
  abbrev IsSame : Home → Home → Text → Type 0
  IsSame h h' j = (get h'.registry j ≡ get h.registry j) × (get h'.boxes j ≡ get h.boxes j)

  pop-IsSpared : (d : Dict Child) (l j : Text) → IsSpared live d j → IsSpared live (pop d l) j
  pop-IsSpared d l j i c e = elim (Bool-cases (l == j)) [
    | inl q ↦ absurd (ground (arith, q, e, get-pop d l j))
    | inr q ↦ i c (ground (arith, q, e, get-pop d l j))
  ]

  -- The three things that a step of the loop can do.
  pub data IsStep (l : Text) (s : Sweep) : Sweep → Type 0 where
    idle_step : (t : Tally) → IsStep l s (record s { tally = t })
    purge_step : (t : Tally) → IsStep l s (record s { ledger = pop s.ledger l; tally = t })
    close_step :
        (c : Child)
        → get s.ledger l ≡ some c
        → is_reused live l c ≡ false
        → IsStep l s (close_child o l c s)

  pub despawn_one-IsStep : (l : Text) (s : Sweep) → IsStep l s (despawn_one o live do_gone l s)
  unfolding despawn_one
  despawn_one-IsStep l s = elim (Option-cases (get s.ledger l)) [
    | inl e ↦ rw (despawn_one, e) (idle_step _)
    | inr (c, e) ↦ elim (Bool-cases (is_reused live l c)) [
      | inl r ↦ elim (Bool-cases do_gone) [
        | inl g ↦ rw (despawn_one, e, r, g) (purge_step _)
        | inr g ↦ rw (despawn_one, e, r, g) (idle_step _)
      ]
      | inr r ↦ rw (despawn_one, e, r) (close_step c e r)
    ]
  ]

  step-IsSpared :
      (l j : Text) (s s' : Sweep)
      → IsStep l s s'
      → IsSpared live s.ledger j
      → IsSpared live s'.ledger j × IsSame s.home s'.home j
  step-IsSpared l j s _ (idle_step t) i = (i, (refl, refl))
  step-IsSpared l j s _ (purge_step t) i = (pop-IsSpared s.ledger l j i, (refl, refl))
  step-IsSpared l j s _ (close_step c e r) i = (
    pop-IsSpared s.ledger l j i,
    drop_label_others o s.home l j
        (elim (Bool-cases (l == j)) [ inl q ↦ absurd (ground (arith, q, e, r, i c)) | inr q ↦ q ]),
  )

  despawn_all-IsSpared :
      (labels : List Text) (j : Text) (s : Sweep)
      → IsSpared live s.ledger j
      → IsSame s.home (despawn_all o live do_gone labels s).home j
  unfolding despawn_all
  despawn_all-IsSpared [] j s i = (refl, refl)
  despawn_all-IsSpared (l ∷ labels) j s i =
      let (i', (a, b)) =
        step-IsSpared l j s (despawn_one o live do_gone l s) (despawn_one-IsStep l s) i in
      let (a', b') = despawn_all-IsSpared labels j (despawn_one o live do_gone l s) i' in
      (a' ∙ a, b' ∙ b)

  module _ (ledger : Dict Child) where
    abbrev IsWithin : Dict Child → Type 0
    IsWithin d = (k : Text) (c : Child) → get d k ≡ some c → get ledger k ≡ some c

    pop-IsWithin : (d : Dict Child) (l : Text) → IsWithin d → IsWithin (pop d l)
    pop-IsWithin d l i k c e = elim (Bool-cases (l == k)) [
      | inl q ↦ absurd (ground (arith, q, e, get-pop d l k))
      | inr q ↦ i k c (ground (arith, q, e, get-pop d l k))
    ]

    All-snoc {ℓ} :
        (P : Text → Type ℓ) (xs : List Text) (x : Text) → All P xs → P x → All P (xs ++ (x ∷ []))
    All-snoc P [] x a p = (p, tt)
    All-snoc P (y ∷ xs) x (q, a) p = (q, All-snoc P xs x a p)

    step-IsOwn :
        (l : Text) (s s' : Sweep)
        → IsStep l s s'
        → IsWithin s.ledger
        → All (IsOwn live ledger) s.closing
        → IsWithin s'.ledger × All (IsOwn live ledger) s'.closing
    step-IsOwn l s _ (idle_step t) i a = (i, a)
    step-IsOwn l s _ (purge_step t) i a = (pop-IsWithin s.ledger l i, a)
    step-IsOwn l s _ (close_step c e r) i a = (
      pop-IsWithin s.ledger l i,
      elim (Bool-cases (nonempty c.session_id)) [
        | inl n ↦
            rw n (All-snoc (IsOwn live ledger) s.closing c.session_id a (l, c, i l c e, refl, r))
        | inr n ↦ rw n a
      ],
    )

    despawn_all-IsOwn :
        (labels : List Text) (s : Sweep)
        → IsWithin s.ledger
        → All (IsOwn live ledger) s.closing
        → All (IsOwn live ledger) (despawn_all o live do_gone labels s).closing
    unfolding despawn_all
    despawn_all-IsOwn [] s i a = a
    despawn_all-IsOwn (l ∷ labels) s i a =
        let (i', a') =
          step-IsOwn l s (despawn_one o live do_gone l s) (despawn_one-IsStep l s) i a in
        despawn_all-IsOwn labels (despawn_one o live do_gone l s) i' a'

-- `despawn`, whatever its flags, asks iTerm to close only panes that the spawn ledger names under a
-- label that is not registered for another pane. A label that has no entry in the ledger, or is
-- registered for another pane than its entry's, keeps its registration and its mailbox.
pub despawn_safe :
    (o : Outside) (s : Shell) (f : Flags)
    → All (IsOwn s.home.registry (load_spawn_ledger s.ledger_file)) (despawn o s f).2
      × ((j : Text)
          → IsSpared s.home.registry (load_spawn_ledger s.ledger_file) j
          → (get (despawn o s f).1.home.registry j ≡ get s.home.registry j)
            × (get (despawn o s f).1.home.boxes j ≡ get s.home.boxes j))
unfolding despawn
despawn_safe o s f =
    let live = s.home.registry in
    let ledger = load_spawn_ledger s.ledger_file in
    elim (Bool-cases (is_empty_dict ledger)) [
      | inl e ↦ rw e (tt, λ j i. (refl, refl))
      | inr e ↦ elim (Option-cases (despawn_targets f live ledger)) [
        | inl t ↦ rw (e, t) (tt, λ j i. (refl, refl))
        | inr (targets, t) ↦
            rw (e, t)
              (
                despawn_all-IsOwn o live f.do_gone ledger targets _ (λ k c g. g) tt,
                λ j i. despawn_all-IsSpared o live f.do_gone targets j _ i,
              )
      ]
    ]
