-- ===== src/Spawned/Known.antt =====
-- src/teammate_mcp/spawn_track.py: the panes that the ledger knows.
use teammate_mcp.Base.{
  Bool-cases, ◌==◌, contains, option_eq, nat_eq, text_eq, ◌≡◌, refl, ◌≢◌, inl, inr, true, ◌&&◌,
  ◌||◌, none, some, List, [], ◌∷◌, ◌++◌, arith,
}
use teammate_mcp.Base.Text.{Text}
use teammate_mcp.Registry.{nonempty}
use teammate_mcp.Spawned.{Entry, Ledger, name_of, load, record_spawn, filter_to_known}

load-append :
    (lines : Ledger) (e : Entry) (name : Text)
    → contains (load (lines ++ (some e ∷ []))) name
      ≡ (contains (load lines) name || nonempty e.session_id && name == name_of e.session_id)
unfolding load
load-append [] e name = ground arith
load-append (none ∷ lines) e name = load-append lines e name
load-append (some f ∷ lines) e name = ground (arith, load-append lines e name)

-- Recording a pane adds its name to the ledger, and no other name; recording it again changes
-- nothing.
pub record_spawn_effect :
    (lines : Ledger) (session_id spawned_by other name : Text)
    → nonempty session_id ≡ true
    → let lines' = record_spawn lines session_id spawned_by in
      (contains (load lines') (name_of session_id) ≡ true)
      × (record_spawn lines' session_id other ≡ lines')
      × (name ≢ name_of session_id → contains (load lines') name ≡ contains (load lines) name)
unfolding record_spawn
record_spawn_effect lines session_id spawned_by other name n =
    elim (Bool-cases (contains (load lines) (name_of session_id))) [
      | inl t ↦ (ground (arith, t), ground (arith, t), λ d. ground (arith, t))
      | inr f ↦ (
        rw f (
            ground (
              arith,
              n,
              load-append lines (record { session_id = session_id; spawned_by = spawned_by })
                  (name_of session_id),
            )),
        ground (
          arith,
          f,
          n,
          load-append lines (record { session_id = session_id; spawned_by = spawned_by })
              (name_of session_id),
        ),
        λ d. rw f (
            ground (
              arith,
              n,
              d,
              load-append lines (record { session_id = session_id; spawned_by = spawned_by }) name,
            )),
      )
    ]

-- What passes the filter was asked for, and is in the ledger.
pub filter_to_known_sound :
    (lines : Ledger) (session_ids : List Text) (sid : Text)
    → contains (filter_to_known lines session_ids) sid
      ≡ (contains session_ids sid && contains (load lines) (name_of sid))
unfolding filter_to_known
filter_to_known_sound lines [] sid = refl
filter_to_known_sound lines (s ∷ session_ids) sid =
    ground (arith, filter_to_known_sound lines session_ids sid)
