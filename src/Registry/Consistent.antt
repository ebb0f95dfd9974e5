-- ===== src/Registry/Consistent.antt =====
-- src/teammate_mcp/registry.py: labels, panes and threads that stand once.
use teammate_mcp.Base.{
  if◌then◌else◌, ◌==◌, option_eq, nat_eq, text_eq, ℕ, ◌≡◌, refl, ◌≢◌, true, false, ◌&&◌, Option,
  none, some, List, [], ◌∷◌, arith,
}
use teammate_mcp.Base.Text.{Text, upper}
use teammate_mcp.Base.Dict.{get, pop, get-pop, NodupKeys, pop-NodupKeys}
use teammate_mcp.Registry.{
  mailbox, Rec, Registry, Extra, ok, nonempty, is_mailbox, register_guard, same_pane, new_rec,
  register, holds_thread, mailbox_rec, foreign, register_mailbox, prune_registry,
}
use teammate_mcp.Registry.Update.{
  survivor, written, register-inv, get-register_written, register-NodupKeys,
}
use teammate_mcp.Registry.Mailboxes.{
  claimed, get-register_mailbox, register_mailbox-NodupKeys, get-prune_registry,
  prune_registry-NodupKeys,
}

abbrev pub PanesUnique : Registry → Type 0
PanesUnique d =
    (j k : Text) (r s : Rec)
    → get d j ≡ some r
    → get d k ≡ some s
    → same_pane r.session_id s.session_id ≡ true
    → j ≡ k

abbrev pub ThreadsUnique : Registry → Type 0
ThreadsUnique d =
    (j k : Text) (r s : Rec)
    → get d j ≡ some r
    → get d k ≡ some s
    → (is_mailbox r.transport && is_mailbox s.transport) ≡ true
    → r.thread_id ≡ s.thread_id
    → j ≡ k

pub record IsConsistent (d : Registry) : Type 0 where
  pub nodup : NodupKeys d
  pub panes : PanesUnique d
  pub threads : ThreadsUnique d

nonempty_of_upper : (a b : Text) → nonempty a ≡ true → upper b ≡ upper a → nonempty b ≡ true
unfolding upper
nonempty_of_upper [] b h e = cc
nonempty_of_upper (c ∷ a) [] h e = cc
nonempty_of_upper (c ∷ a) (x ∷ b) h e = refl

pub same_pane_comm : (a b : Text) → same_pane a b ≡ true → same_pane b a ≡ true
same_pane_comm a b h = ground (arith, nonempty_of_upper a b)

module _ (d d' : Registry) (label session_id : Text) (pid : ℕ) (job : Text) (cwd : Option Text)
    (extra : Extra) (now : ℕ) (c : IsConsistent d)
    (done : register d label session_id pid job cwd extra true now ≡ ok d') where
  at :
      (j : Text)
      → get d' j ≡ (
          if label == j
          then some (written d label session_id pid job cwd extra true now)
          else survivor label session_id true j (get d j))
  at j = get-register_written d label session_id pid job cwd extra true now d' j c.nodup done

  register-PanesUnique : extra.session_id ≡ none → PanesUnique d'
  unfolding new_rec
  register-PanesUnique x j k r s hr hs same =
      ground (arith, x, at j, at k, same_pane_comm r.session_id s.session_id, c.panes j k r s)

  register-ThreadsUnique : extra.transport ≢ some (some mailbox) → ThreadsUnique d'
  unfolding new_rec register_guard
  register-ThreadsUnique m j k r s hr hs both same =
      let guard = (register-inv d label session_id pid job cwd extra true now d' c.nodup done).0 in
      ground (arith, at j, at k, guard, c.threads j k r s)

  -- `register` with duplicates dropped keeps the invariant, where `extra` sets no session id and
  -- does not make the pane a mailbox.
  pub register-IsConsistent :
      extra.session_id ≡ none → extra.transport ≢ some (some mailbox) → IsConsistent d'
  register-IsConsistent x m = record {
    nodup = register-NodupKeys d label session_id pid job cwd extra true now d' c.nodup done;
    panes = register-PanesUnique x;
    threads = register-ThreadsUnique m;
  }

-- A claimed mailbox keeps the invariant.
pub register_mailbox-IsConsistent :
    (d d' : Registry) (label thread_id cwd : Text) (now : ℕ)
    → IsConsistent d
    → register_mailbox d label thread_id cwd now ≡ ok d'
    → IsConsistent d'
unfolding mailbox_rec
register_mailbox-IsConsistent d d' label thread_id cwd now c done = record {
  nodup = register_mailbox-NodupKeys d label thread_id cwd now d' c.nodup done;
  panes = λ j k r s hr hs same.
      ground (arith, (at j).0, (at k).0, same_pane_comm r.session_id s.session_id, c.panes j k r s);
  threads = λ j k r s hr hs both same.
      ground (arith, (at j).0, (at k).0, (at j).2 r, (at k).2 s, c.threads j k r s);
}
  where
    at :
        (j : Text)
        → (get d' j ≡ (if label == j then some (claimed d label thread_id cwd now) else get d j))
          × (foreign (get d label) thread_id ≡ false)
          × ((r : Rec) → get d j ≡ some r → holds_thread label thread_id j r ≡ false)
    at j = get-register_mailbox d label thread_id cwd now d' j done

-- Removing labels keeps the invariant.
pub fewer-IsConsistent :
    (d d' : Registry)
    → NodupKeys d'
    → ((j : Text) (r : Rec) → get d' j ≡ some r → get d j ≡ some r)
    → IsConsistent d
    → IsConsistent d'
fewer-IsConsistent d d' n below c = record {
  nodup = n;
  panes = λ j k r s hr hs. c.panes j k r s (below j r hr) (below k s hs);
  threads = λ j k r s hr hs. c.threads j k r s (below j r hr) (below k s hs);
}

pub prune_registry-IsConsistent :
    (alive : List Text) (now grace : ℕ) (d : Registry)
    → IsConsistent d
    → IsConsistent (prune_registry alive now grace d)
prune_registry-IsConsistent alive now grace d c =
    fewer-IsConsistent d (prune_registry alive now grace d)
      (prune_registry-NodupKeys alive now grace d c.nodup)
      (λ j r h. ground (arith, get-prune_registry alive now grace d j c.nodup)) c

pub pop-IsConsistent : (d : Registry) (label : Text) → IsConsistent d → IsConsistent (pop d label)
pop-IsConsistent d label c =
    fewer-IsConsistent d (pop d label) (pop-NodupKeys d label c.nodup)
      (λ j r h. ground (arith, get-pop d label j)) c
