-- ===== src/Alive.antt =====
-- src/teammate_mcp/registry.py: `alive_session_ids_cached`, the open panes by way of a cache file
-- that processes share. What the file holds at each of the two readings, whether the lock is free,
-- and what osascript answers are parameters. Times are milliseconds.
pub mod Stale
use teammate_mcp.Base.{
  leb, if◌then◌else◌, Eq, option_eq, nat_eq, text_eq, keep, ℕ, ◌-◌, ◌/◌, Bool, true, false, not,
  ◌&&◌, Option, none, some, List, [], ◌∷◌, map, arith,
}
use teammate_mcp.Base.Text.{Text, str, upper}
use teammate_mcp.Base.Order.{sorted}
use teammate_mcp.Address.{prune_dead}
use teammate_mcp.Mailbox.{Home}

pub record Cache : Type 0 where
  pub ts : ℕ
  pub sids : List Text

-- What a call meets: the file before and after the lock is taken, `none` if it cannot be read.
pub record Meets : Type 0 where
  pub first_read : Option Cache
  pub lock_free : Bool
  pub second_read : Option Cache
  pub osascript : List Text

-- What it leaves: the answer, what it writes to the file, and the fallback of the process.
pub record Left : Type 0 where
  pub sids : List Text
  pub written : Option Cache
  pub fallback : List Text

abbrev pub is_any : List Text → Bool
is_any [] = false
is_any (s ∷ ss) = true

-- `frozenset(str(s).upper() for s in raw.get("sids", []) if s)`
unfoldable pub sids_of : Option Cache → List Text
sids_of none = []
sids_of (some c) = map upper (keep (λ s. elim s [ [] ↦ false | ◌∷◌ x xs ↦ true ]) c.sids)

abbrev pub is_fresh : Bool → ℕ → ℕ → Option Cache → Bool
is_fresh force_refresh ttl now none = false
is_fresh force_refresh ttl now (some c) =
    is_any (sids_of (some c)) && not force_refresh && leb (now - c.ts) ttl

abbrev pub or_sids : List Text → List Text → List Text
or_sids s t = if is_any s then s else t

-- The sids in hand after the second reading.
abbrev pub read_again : Option Cache → List Text → List Text
read_again none sids = sids
read_again (some c) sids = sids_of (some c)

unfoldable pub alive_session_ids_cached : Bool → ℕ → ℕ → List Text → Meets → Left
unfolding sids_of
alive_session_ids_cached force_refresh ttl now fallback m =
    let sids = sids_of m.first_read in
    let again = read_again m.second_read sids in
    let stay : Left = record { sids = sids; written = none; fallback = fallback } in
    if is_fresh force_refresh ttl now m.first_read
    then record stay { fallback = sids }
    else if not m.lock_free
    then record stay { sids = or_sids sids fallback }
    else if is_fresh force_refresh ttl now m.second_read
    then record { sids = again; written = none; fallback = again }
    else if is_any m.osascript
    then record {
      sids = m.osascript;
      written = some (record { ts = now; sids = sorted m.osascript });
      fallback = m.osascript;
    }
    else record stay { sids = or_sids again fallback }

-- `prune_dead` over the cache.
unfoldable pub prune_dead_cached :
    Home → Bool → ℕ → ℕ → ℕ → List Text → Meets → (Text → Bool) → Home × List Text
unfolding alive_session_ids_cached
prune_dead_cached h force_refresh ttl now grace fallback m renames =
    prune_dead h (alive_session_ids_cached force_refresh ttl now fallback m).sids now grace renames
