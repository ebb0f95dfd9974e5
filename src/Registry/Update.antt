-- ===== src/Registry/Update.antt =====
-- What each registry operation does to every label.
use teammate_mcp.Base.{
  ℕ, ◌≡◌, ◌≢◌, ◌⊎◌, refl, ap, subst, Bool, true, false, not, ◌||◌, Option, none, some, arith,
  is_some, ◌&&◌, Option-cases, Bool-cases, ◌==◌, text_eq, option_eq, inl, inr, if◌then◌else◌,
}
use teammate_mcp.Base.Text.{Text}
use teammate_mcp.Base.Dict.{
  get, put, get-put, get-keep_items, sift, NodupKeys, put-NodupKeys, keep_items-NodupKeys,
}
use teammate_mcp.Registry.{
  Rec, Registry, Extra, ok, err, RegistryError, mailbox, is_channel, rec_or_empty, same_pane,
  register_guard, drop_collisions, new_rec, register, or_else, given, no_rec, nonempty,
}

-- The records that `register` keeps.
abbrev pub survivor : Text → Text → Bool → Text → Option Rec → Option Rec
survivor label session_id dedupe j old =
    sift (λ r. not dedupe || j == label || not (same_pane session_id r.session_id)) old

get-drop_collisions :
    (d : Registry) (label session_id j : Text)
    → NodupKeys d
    → get (drop_collisions d label session_id) j ≡ survivor label session_id true j (get d j)
unfolding drop_collisions
get-drop_collisions d label session_id j n = get-keep_items _ d j n

survivor_self :
    (label session_id : Text) (b : Bool) (o : Option Rec) → survivor label session_id b label o ≡ o
survivor_self label session_id b none = refl
survivor_self label session_id b (some r) = ground arith

survivor-false :
    (label session_id j : Text) (o : Option Rec) → survivor label session_id false j o ≡ o
survivor-false label session_id j none = refl
survivor-false label session_id j (some r) = refl

-- The dict after the collisions are dropped, and before the label is written.
abbrev kept : Registry → Text → Text → Bool → Registry
kept d label session_id dedupe = if dedupe then drop_collisions d label session_id else d

get-kept :
    (d : Registry) (label session_id : Text) (dedupe : Bool) (j : Text)
    → NodupKeys d
    → get (kept d label session_id dedupe) j ≡ survivor label session_id dedupe j (get d j)
get-kept d label session_id true j n = get-drop_collisions d label session_id j n
get-kept d label session_id false j n = rw survivor-false

-- The eight keys that `register` takes over from the old record, with what `extra` sets.
abbrev pub Carries : Extra → Rec → Rec → Type 0
Carries extra old r =
    (r.transport ≡ or_else extra.transport old.transport)
    × (r.thread_id ≡ or_else extra.thread_id old.thread_id)
    × (r.claude_owner ≡ or_else extra.claude_owner old.claude_owner)
    × (r.channel ≡ or_else extra.channel old.channel)
    × (r.auto_delivery ≡ or_else extra.auto_delivery old.auto_delivery)
    × (r.delivery_policy ≡ or_else extra.delivery_policy old.delivery_policy)
    × (r.socket_path ≡ or_else extra.socket_path old.socket_path)
    × (r.setup_error ≡ or_else extra.setup_error old.setup_error)

-- The record that a registration is to leave where the label had the record `old`.
pub record IsRecord (old : Rec) (label session_id : Text) (pid : ℕ) (job : Text) (cwd : Option Text)
    (extra : Extra) (now : ℕ) (r : Rec) : Type 0 where
  pub names :
      (r.label ≡ or_else extra.label label)
      × (r.session_id ≡ or_else extra.session_id session_id)
      × (r.pid ≡ or_else extra.pid pid)
      × (r.job ≡ or_else extra.job job)
      × (r.cwd ≡ or_else extra.cwd cwd)
      × (r.registered_at ≡ or_else extra.registered_at now)
  pub carried : same_pane session_id old.session_id ≡ true → Carries extra old r
  pub fresh : same_pane session_id old.session_id ≡ false → Carries extra no_rec r

module _ (d : Registry) (label session_id : Text) (pid : ℕ) (job : Text) (cwd : Option Text)
    (extra : Extra) (dedupe : Bool) (now : ℕ) where
  abbrev pub written : Rec
  written = new_rec (rec_or_empty (get d label)) label session_id pid job cwd extra now

  register_ok :
      NodupKeys d
      → register_guard (rec_or_empty (get d label)) session_id extra ≡ none
      → register d label session_id pid job cwd extra dedupe now
        ≡ ok (put (kept d label session_id dedupe) label written)
  unfolding register
  register_ok n g = rw (g, register, get-kept d label session_id dedupe label n, survivor_self) refl

  register_err :
      (e : RegistryError)
      → register_guard (rec_or_empty (get d label)) session_id extra ≡ some e
      → register d label session_id pid job cwd extra dedupe now ≡ err e
  unfolding register
  register_err e g = rw (g, register) refl

  -- What a successful `register` has passed, and the dict that it leaves.
  pub register-inv :
      (d' : Registry)
      → NodupKeys d
      → register d label session_id pid job cwd extra dedupe now ≡ ok d'
      → (register_guard (rec_or_empty (get d label)) session_id extra ≡ none)
        × (d' ≡ put (kept d label session_id dedupe) label written)
  register-inv d' n h =
      elim (Option-cases (register_guard (rec_or_empty (get d label)) session_id extra)) [
        | inl g ↦ (g, cc (register_ok n g))
        | inr (e, g) ↦ absurd (cc (register_err e g))
      ]

  pub get-register_written :
      (d' : Registry) (j : Text)
      → NodupKeys d
      → register d label session_id pid job cwd extra dedupe now ≡ ok d'
      → get d' j
        ≡ (if label == j then some written else survivor label session_id dedupe j (get d j))
  get-register_written d' j n h =
      rw ((register-inv d' n h).1, get-put, get-kept d label session_id dedupe j n) refl

  written-IsRecord :
      IsRecord (rec_or_empty (get d label)) label session_id pid job cwd extra now written
  unfolding new_rec
  written-IsRecord = record {
    names = (refl, refl, refl, refl, refl, refl);
    carried = λ e. rw e (refl, refl, refl, refl, refl, refl, refl, refl);
    fresh = λ e. rw e (refl, refl, refl, refl, refl, refl, refl, refl);
  }

  -- A successful `register` leaves a record under its label that has the arguments, or what `extra`
  -- sets in their place. Of the record that the label had, the other keys stay if it named the same
  -- pane, the case of letters aside, and else nothing stays; `extra` overrides them in both cases.
  -- Every other label keeps its record, but for those of the same pane where duplicates are
  -- dropped.
  pub get-register :
      (d' : Registry)
      → NodupKeys d
      → register d label session_id pid job cwd extra dedupe now ≡ ok d'
      → ((r : Rec) × (get d' label ≡ some r)
          × IsRecord (rec_or_empty (get d label)) label session_id pid job cwd extra now r)
        × ((j : Text) → label ≢ j → get d' j ≡ survivor label session_id dedupe j (get d j))
  get-register d' n h = (
    (written, ground (arith, get-register_written d' label n h), written-IsRecord),
    λ j m. ground (arith, get-register_written d' j n h, m),
  )

  pub register-NodupKeys :
      (d' : Registry)
      → NodupKeys d
      → register d label session_id pid job cwd extra dedupe now ≡ ok d'
      → NodupKeys d'
  unfolding drop_collisions
  register-NodupKeys d' n h = rw (register-inv d' n h).1 (
      put-NodupKeys (kept d label session_id dedupe) label written
        (elim (Bool-cases dedupe) [ inl e ↦ rw e (keep_items-NodupKeys _ d n) | inr e ↦ rw e n ]))

  -- A label of a mailbox is never taken over. A label of a native channel is taken over only from
  -- the pane that has it, which is not the empty one, or by the owner that it names: a channel
  -- without an owner, and an owner that is empty, let nobody else in.
  pub register-respects_owner :
      (d' : Registry) (r : Rec)
      → NodupKeys d
      → get d label ≡ some r
      → register d label session_id pid job cwd extra dedupe now ≡ ok d'
      → (r.transport ≢ some mailbox)
        × ((is_channel r.transport || is_some r.channel) ≡ true
            → ((r.session_id ≡ session_id) × (nonempty session_id ≡ true))
              ⊎ ((owner : Text) × (r.claude_owner ≡ some owner)
                  × (given extra.claude_owner ≡ some owner)
                  × (nonempty owner ≡ true)))
  unfolding register_guard
  register-respects_owner d' r n g h =
      let fine =
        subst (λ x. register_guard x session_id extra ≡ none) (ap rec_or_empty g)
          (register-inv d' n h).0 in
      (λ m. ground (arith, fine, m), λ c. admitted r c fine)
    where
      admitted :
          (r : Rec)
          → (is_channel r.transport || is_some r.channel) ≡ true
          → register_guard r session_id extra ≡ none
          → ((r.session_id ≡ session_id) × (nonempty session_id ≡ true))
            ⊎ ((owner : Text) × (r.claude_owner ≡ some owner)
                × (given extra.claude_owner ≡ some owner)
                × (nonempty owner ≡ true))
      admitted r c f = elim (Bool-cases (nonempty session_id && r.session_id == session_id)) [
        | inl p ↦ inl (ground (arith, p), ground (arith, p))
        | inr p ↦ inr (elim (Option-cases (given extra.claude_owner)) [
          | inl e ↦ absurd (ground (arith, c, f, p, e))
          | inr (owner, e) ↦ (owner, ground (arith, c, f, p, e), e, ground (arith, c, f, p, e))
        ])
      ]
