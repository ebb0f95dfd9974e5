-- ===== src/Registry/Mailboxes.antt =====
-- What `register_mailbox` and `prune_dead` do to every label.
use teammate_mcp.Base.{
  if◌then◌else◌, Option-cases, ◌==◌, contains, option_eq, nat_eq, text_eq, ℕ, ◌+◌, ◌≤◌, ◌≡◌, refl,
  ap, ◌↔◌, ◌⊎◌, inl, inr, true, false, not, ◌&&◌, none, some, List, [], ◌∷◌, arith,
}
use teammate_mcp.Base.Text.{Text, upper, strip}
use teammate_mcp.Base.Dict.{
  get, put, get-put, NodupKeys, sift, get-keep_items, put-NodupKeys, keep_items-NodupKeys,
  find_item, find_item_sound, find_item-none,
}
use teammate_mcp.Registry.{
  Rec, Registry, RegistryError, belongs_to_session, thread_registered_as, ok, err, nonempty,
  rec_or_empty, holds_thread, mailbox_rec, foreign, register_mailbox, is_dead, prune_registry,
}

module _ (d : Registry) (label thread_id cwd : Text) (now : ℕ) where
  abbrev pub claimed : Rec
  claimed = mailbox_rec (rec_or_empty (get d label)) label thread_id cwd now

  pub register_mailbox-inv :
      (d' : Registry)
      → register_mailbox d label thread_id cwd now ≡ ok d'
      → (find_item (holds_thread label thread_id) d ≡ none)
        × (foreign (get d label) thread_id ≡ false)
        × (d' ≡ put d label claimed)
  unfolding register_mailbox
  register_mailbox-inv d' h = ground arith

  -- A successful claim writes the label's record, which names the thread, and nothing else. The
  -- label was free or already the thread's mailbox, and no other label is a mailbox of the thread.
  pub get-register_mailbox :
      (d' : Registry) (j : Text)
      → register_mailbox d label thread_id cwd now ≡ ok d'
      → (get d' j ≡ (if label == j then some claimed else get d j))
        × (foreign (get d label) thread_id ≡ false)
        × ((r : Rec) → get d j ≡ some r → holds_thread label thread_id j r ≡ false)
  get-register_mailbox d' j h =
      let facts = register_mailbox-inv d' h in
      (rw (facts.2, get-put) refl, facts.1, λ r g. find_item-none _ d j r facts.0 g)

  -- The claim is refused exactly where another label is the thread's mailbox, or the label belongs
  -- to another session.
  pub register_mailbox_refusal :
      (e : RegistryError)
      → NodupKeys d
      → register_mailbox d label thread_id cwd now ≡ err e
      → ((other : Text) × (r : Rec) × (e ≡ thread_registered_as other)
          × (get d other ≡ some r)
          × (holds_thread label thread_id other r ≡ true))
        ⊎ ((e ≡ belongs_to_session) × (foreign (get d label) thread_id ≡ true))
  unfolding register_mailbox
  register_mailbox_refusal e n h =
      elim (Option-cases (find_item (holds_thread label thread_id) d)) [
        | inl none_found ↦ inr (ground (arith, none_found))
        | inr (p, found) ↦
            let sound = find_item_sound _ d p.0 p.1 n found in
            inl (p.0, p.1, ground (arith, found), sound.1, sound.0)
      ]

  pub register_mailbox-NodupKeys :
      (d' : Registry)
      → NodupKeys d
      → register_mailbox d label thread_id cwd now ≡ ok d'
      → NodupKeys d'
  register_mailbox-NodupKeys d' n h =
      rw (register_mailbox-inv d' h).2 (put-NodupKeys d label claimed n)

-- What the test of `prune_dead` says of a record.
pub is_dead_iff :
    (alive : List Text) (now grace : ℕ) (r : Rec)
    → (is_dead alive now grace r ≡ true) ↔ (
        (nonempty (upper (strip r.session_id)) ≡ true)
        × (contains alive (upper (strip r.session_id)) ≡ false)
        × ((r.registered_at ≡ 0) ⊎ (r.registered_at + grace ≤ now)))
unfolding is_dead
is_dead_iff alive now grace r = (λ h. ground arith, λ h. ground arith)

-- After a prune with some open pane, a label is gone exactly if its record was dead, and all else
-- is as it was. With no open pane known, nothing is removed.
pub get-prune_registry :
    (alive : List Text) (now grace : ℕ) (d : Registry) (j : Text)
    → NodupKeys d
    → get (prune_registry alive now grace d) j
      ≡ sift (λ r. not (nonempty alive && is_dead alive now grace r)) (get d j)
unfolding prune_registry
get-prune_registry [] now grace d j n = elim (Option-cases (get d j)) [
  | inl e ↦ rw e
  | inr (r, e) ↦ rw e
]
get-prune_registry (s ∷ alive) now grace d j n = get-keep_items _ d j n

pub prune_registry-NodupKeys :
    (alive : List Text) (now grace : ℕ) (d : Registry)
    → NodupKeys d
    → NodupKeys (prune_registry alive now grace d)
unfolding prune_registry
prune_registry-NodupKeys [] now grace d n = n
prune_registry-NodupKeys (s ∷ alive) now grace d n = keep_items-NodupKeys _ d n

is_dead_paneless :
    (alive : List Text) (now grace : ℕ) (r : Rec)
    → r.session_id ≡ []
    → is_dead alive now grace r ≡ false
unfolding is_dead upper strip
is_dead_paneless alive now grace r e = ground (arith, ap (λ s. upper (strip s)) e)

-- An address without a pane is never pruned.
pub prune_registry_keeps_mailbox :
    (alive : List Text) (now grace : ℕ) (d : Registry) (j : Text) (r : Rec)
    → NodupKeys d
    → get d j ≡ some r
    → r.session_id ≡ []
    → get (prune_registry alive now grace d) j ≡ some r
prune_registry_keeps_mailbox alive now grace d j r n g e =
    rw (get-prune_registry alive now grace d j n, g)
      (ground (arith, is_dead_paneless alive now grace r e))
