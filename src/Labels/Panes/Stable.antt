-- ===== src/Labels/Panes/Stable.antt =====
-- src/teammate_mcp/server.py: the label of a pane after its registration.
use teammate_mcp.Base.{
  Option-cases, option_eq, nat_eq, text_eq, ℕ, ◌≡◌, refl, sym, ap, ◌∙◌, inl, inr, Bool, true, false,
  Option, none, some, [], arith,
}
use teammate_mcp.Base.Text.{Text}
use teammate_mcp.Base.Dict.{get, NodupKeys, find_item, find_item_sound, find_item-none}
use teammate_mcp.Registry.{
  same_pane, Rec, rec_eq, Registry, no_extra, Outcome, ok, err, nonempty, new_rec, register,
}
use teammate_mcp.Registry.Update.{written, get-register_written}
use teammate_mcp.Registry.Consistent.{IsConsistent, same_pane_comm, register-IsConsistent}
use teammate_mcp.Labels.Fresh.{next_auto_label_free}
use teammate_mcp.Labels.Panes.{
  Pane, register_via_daemon_or_direct, is_of_pane, existing_label, chosen_label, or_again,
  registered, outcome_of, register_pane,
}

or_again_self : (o : Outcome Registry) → or_again o o ≡ o
or_again_self (ok d) = refl
or_again_self (err e) = refl

direct-register :
    (served : Bool) (d : Registry) (l sid : Text) (pid : ℕ) (job : Text) (cwd : Option Text)
    (now : ℕ)
    → register_via_daemon_or_direct served d l sid pid job cwd now
      ≡ register d l sid pid job cwd no_extra true now
unfolding register_via_daemon_or_direct
direct-register true d l sid pid job cwd now = or_again_self _
direct-register false d l sid pid job cwd now = refl

outcome_of-inv :
    (k l : Text) (d' : Registry) (o : Outcome Registry)
    → outcome_of k o ≡ registered l d'
    → (l ≡ k) × (o ≡ ok d')
outcome_of-inv k l d' (ok d) e = (cc e, cc e)
outcome_of-inv k l d' (err x) e = absurd (cc e)

module _ (served : Bool) (d d' : Registry) (explicit l : Text) (me : Pane) (pid now : ℕ)
    (meanwhile : Registry → Registry) where
  register_pane-inv :
      register_pane served d explicit me pid now meanwhile ≡ registered l d'
      → (l ≡ chosen_label d explicit me)
        × (register (meanwhile d) l me.session_id pid me.job me.cwd no_extra true now ≡ ok d')
  unfolding register_pane
  register_pane-inv e =
      let (p, q) = outcome_of-inv (chosen_label d explicit me) l d' _ e in
      (p, sym (direct-register served (meanwhile d) l me.session_id pid me.job me.cwd now) ∙ rw p q)

  get-register_pane :
      NodupKeys (meanwhile d)
      → register_pane served d explicit me pid now meanwhile ≡ registered l d'
      → get d' l ≡ some (written (meanwhile d) l me.session_id pid me.job me.cwd no_extra true now)
  get-register_pane n e = ground (
    arith,
    get-register_written (meanwhile d) l me.session_id pid me.job me.cwd no_extra true now d' l n
        (register_pane-inv e).1,
  )

  abbrev pub new_record : Rec
  new_record = written (meanwhile d) l me.session_id pid me.job me.cwd no_extra true now

  new_record_sid : new_record.session_id ≡ me.session_id
  unfolding new_rec
  new_record_sid = refl

  register_pane-IsConsistent :
      IsConsistent (meanwhile d)
      → register_pane served d explicit me pid now meanwhile ≡ registered l d'
      → IsConsistent d'
  register_pane-IsConsistent c e =
      register-IsConsistent (meanwhile d) d' l me.session_id pid me.job me.cwd no_extra now c
        (register_pane-inv e).1 refl (λ q. cc q)

  -- The pane's label after its registration is the label that it got.
  existing_label_after :
      IsConsistent (meanwhile d)
      → nonempty me.session_id ≡ true
      → register_pane served d explicit me pid now meanwhile ≡ registered l d'
      → existing_label d' me.session_id ≡ some l
  unfolding existing_label
  existing_label_after c n e =
      let got = get-register_pane c.nodup e in
      let c' = register_pane-IsConsistent c e in
      elim (Option-cases (find_item (is_of_pane me.session_id) d')) [
        | inl f ↦ absurd (
            ground (
              arith,
              new_record_sid,
              find_item-none (is_of_pane me.session_id) d' l new_record f got,
            ))
        | inr ((k, r), f) ↦
            let (same, at_k) = find_item_sound (is_of_pane me.session_id) d' k r c'.nodup f in
            rw f (
              ap some (
                sym (c'.panes l k new_record r got at_k (ground (arith, new_record_sid, same, n)))))
      ]

-- A pane is registered by `register_self`, the start of the server or a spawn. The label is chosen
-- from the labels that were read, and the registration finds what others left meanwhile. If that is
-- consistent, it stays so, and the pane has no other label; the pane's record is under the label
-- that was chosen; and a registration without a label that comes next, by any process and with the
-- pane's title or job changed, chooses that label again. Without an explicit label, a pane that had
-- none takes a label that nobody had when the labels were read.
pub register_pane_stable :
    (served : Bool) (d d' : Registry) (explicit l : Text) (me : Pane) (pid now : ℕ)
    (meanwhile : Registry → Registry)
    → IsConsistent (meanwhile d)
    → nonempty me.session_id ≡ true
    → nonempty l ≡ true
    → register_pane served d explicit me pid now meanwhile ≡ registered l d'
    → IsConsistent d'
      × (get d' l ≡ some (new_record served d d' explicit l me pid now meanwhile))
      × ((again : Pane) → again.session_id ≡ me.session_id → chosen_label d' [] again ≡ l)
      × (explicit ≡ [] → existing_label d me.session_id ≡ none → get d l ≡ none)
unfolding chosen_label
register_pane_stable served d d' explicit l me pid now meanwhile c n m e = (
  register_pane-IsConsistent served d d' explicit l me pid now meanwhile c e,
  get-register_pane served d d' explicit l me pid now meanwhile c.nodup e,
  λ again q. rw (q, existing_label_after served d d' explicit l me pid now meanwhile c n e, m) refl,
  λ x y.
      rw ((register_pane-inv served d d' explicit l me pid now meanwhile e).0, x, y)
        (next_auto_label_free d me.job me.name).0,
)

-- The label that is chosen is not looked up again under the lock. Where the registration succeeds
-- although another pane has taken that label meanwhile, the other pane has no label left.
pub register_pane_displaces :
    (served : Bool) (d d' : Registry) (explicit l : Text) (me : Pane) (pid now : ℕ)
    (meanwhile : Registry → Registry) (other : Rec)
    → IsConsistent (meanwhile d)
    → register_pane served d explicit me pid now meanwhile ≡ registered l d'
    → get (meanwhile d) l ≡ some other
    → nonempty other.session_id ≡ true
    → same_pane me.session_id other.session_id ≡ false
    → (j : Text) (r : Rec) → get d' j ≡ some r
    → same_pane other.session_id r.session_id ≡ false
register_pane_displaces served d d' explicit l me pid now meanwhile other c e g n x j r h =
    let reg = (register_pane-inv served d d' explicit l me pid now meanwhile e).1 in
    let at =
      get-register_written (meanwhile d) l me.session_id pid me.job me.cwd no_extra true now d' j
        c.nodup reg in
    ground (
      arith,
      at,
      h,
      n,
      x,
      new_record_sid served d d' explicit l me pid now meanwhile,
      c.panes l j other r g,
      same_pane_comm other.session_id me.session_id,
    )
