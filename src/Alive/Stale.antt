-- ===== src/Alive/Stale.antt =====
-- src/teammate_mcp/registry.py: how old the answer of the cache can be.
use teammate_mcp.Base.{
  if◌then◌else◌, contains, option_eq, nat_eq, text_eq, ℕ, ◌+◌, ◌≤◌, ◌≡◌, refl, Bool, true, false,
  ◌&&◌, none, some, List, [], ◌∷◌, arith,
}
use teammate_mcp.Base.Text.{Text, upper, strip}
use teammate_mcp.Base.Order.{sorted}
use teammate_mcp.Base.Dict.{get, NodupKeys}
use teammate_mcp.Registry.{Rec, rec_eq, nonempty, is_dead}
use teammate_mcp.Mailbox.{Home}
use teammate_mcp.Address.Custody.{get-prune_dead}
use teammate_mcp.Alive.{
  Meets, is_any, sids_of, or_sids, read_again, alive_session_ids_cached, prune_dead_cached,
}

module _ (ttl now : ℕ) (fallback : List Text) (m : Meets) where
  -- The answer of a call that is forced, for every way that it can go: what iTerm answers if the
  -- lock was free and iTerm answered; else what the file held, however old, where it held anything;
  -- and else what the process saw last. Only iTerm's answer is written to the file.
  forced_answer :
      let left = alive_session_ids_cached true ttl now fallback m in
      ((m.lock_free && is_any m.osascript) ≡ true
        → (left.sids ≡ m.osascript)
          × (left.written ≡ some (record { ts = now; sids = sorted m.osascript })))
      × ((m.lock_free && is_any m.osascript) ≡ false
          → (left.written ≡ none)
            × (left.sids
                ≡ or_sids
                    (if m.lock_free
                      then read_again m.second_read (sids_of m.first_read)
                      else sids_of m.first_read)
                    fallback))
  unfolding alive_session_ids_cached
  forced_answer = (λ e. ground (arith, e), λ e. ground (arith, e))

nonempty_any : (s : List Text) → is_any s ≡ true → nonempty s ≡ true
nonempty_any [] e = absurd (cc e)
nonempty_any (x ∷ s) e = refl

dead_later :
    (alive : List Text) (now grace : ℕ) (r : Rec)
    → contains alive (upper (strip r.session_id)) ≡ false
    → nonempty (upper (strip r.session_id)) ≡ true
    → r.registered_at + grace ≤ now
    → is_dead alive now grace r ≡ true
unfolding is_dead
dead_later alive now grace r out sid old = ground (arith, out, sid, old)

-- A forced `prune_dead` that meets the lock taken: whatever is open in iTerm, a pane that is not
-- in the file, however old the file is, loses its label once its grace is over.
stale_prunes :
    (h : Home) (ttl now grace : ℕ) (fallback : List Text) (m : Meets) (renames : Text → Bool)
    (l : Text) (r : Rec)
    → NodupKeys h.registry
    → get h.registry l ≡ some r
    → m.lock_free ≡ false
    → is_any (sids_of m.first_read) ≡ true
    → contains (sids_of m.first_read) (upper (strip r.session_id)) ≡ false
    → nonempty (upper (strip r.session_id)) ≡ true
    → r.registered_at + grace ≤ now
    → get (prune_dead_cached h true ttl now grace fallback m renames).0.registry l ≡ none
unfolding prune_dead_cached alive_session_ids_cached
stale_prunes h ttl now grace fallback m renames l r n g busy any_ out sid old =
    let file = sids_of m.first_read in
    let answer : (alive_session_ids_cached true ttl now fallback m).sids ≡ file =
      ground (arith, busy, any_) in
    rw (get-prune_dead h _ now grace renames l n, g, answer)
      (ground (arith, dead_later file now grace r out sid old, nonempty_any file any_))
