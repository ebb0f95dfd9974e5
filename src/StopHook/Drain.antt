-- ===== src/StopHook/Drain.antt =====
-- hooks/stop_inbox_drain.py: what the stop hook hands over and what it leaves.
use teammate_mcp.Base.{
  if◌then◌else◌, Bool-cases, Option-cases, ◌==◌, contains, ==_iff, option_eq, nat_eq, text_eq,
  length, take, keep, length-take-le, ℕ, zero, suc, ◌≤◌, ◌≡◌, refl, sym, ◌∙◌, subst, inl, inr, Bool,
  true, Option, none, some, List, [], ◌∷◌, arith,
}
use teammate_mcp.Base.Text.{Text}
use teammate_mcp.Base.Dict.{get, get-put, get-pop}
use teammate_mcp.Mailbox.{Message, Box, Home, box, set_box}
use teammate_mcp.Lease.{Probe}
use teammate_mcp.StopHook.{
  decide, move_file, move_files, is_available, available_files, records_of, drain_unlocked, drain,
}

contains-take :
    (n : ℕ) (xs : List Text) (j : Text) → contains (take n xs) j ≡ true → contains xs j ≡ true
contains-take zero xs j h = cc h
contains-take (suc n) [] j h = cc h
contains-take (suc n) (x ∷ xs) j h = ground (arith, h, contains-take n xs j)

contains-keep :
    (p : Text → Bool) (xs : List Text) (j : Text) → contains (keep p xs) j ≡ true → p j ≡ true
contains-keep p [] j h = cc h
contains-keep p (x ∷ xs) j h = ground (arith, h, contains-keep p xs j)

move_file-inbox :
    (b : Box) (k j : Text) → get (move_file b k).inbox j ≡ (if k == j then none else get b.inbox j)
unfolding move_file
move_file-inbox b k j = elim (Option-cases (get b.inbox k)) [
  | inl e ↦ ground (arith, e)
  | inr (m, e) ↦ ground (arith, e, get-pop b.inbox k j)
]

move_file-stays :
    (b : Box) (k j : Text)
    → get b.inbox j ≡ none
    → get (move_file b k).processed j ≡ get b.processed j
unfolding move_file
move_file-stays b k j h = elim (Option-cases (get b.inbox k)) [
  | inl e ↦ ground (arith, e)
  | inr (m, e) ↦ ground (arith, e, h, get-put b.processed k j m)
]

move_file-processed :
    (b : Box) (j : Text) (m : Message)
    → get b.inbox j ≡ some m
    → get (move_file b j).processed j ≡ some m
unfolding move_file
move_file-processed b j m h = ground (arith, h, get-put b.processed j j m)

-- What the moves leave: a named file has left the inbox, and no other one.
pub inbox-move_files :
    (b : Box) (js : List Text) (j : Text)
    → get (move_files b js).inbox j ≡ (if contains js j then none else get b.inbox j)
unfolding move_files
inbox-move_files b [] j = refl
inbox-move_files b (k ∷ js) j =
    ground (arith, inbox-move_files (move_file b k) js j, move_file-inbox b k j)

processed_stays :
    (b : Box) (js : List Text) (j : Text)
    → get b.inbox j ≡ none
    → get (move_files b js).processed j ≡ get b.processed j
unfolding move_files
processed_stays b [] j h = refl
processed_stays b (k ∷ js) j h =
    processed_stays (move_file b k) js j (ground (arith, h, move_file-inbox b k j))
    ∙ move_file-stays b k j h

-- A named file that was pending is processed, with its record.
pub processed-move_files :
    (b : Box) (js : List Text) (j : Text) (m : Message)
    → get b.inbox j ≡ some m
    → contains js j ≡ true
    → get (move_files b js).processed j ≡ some m
unfolding move_files
processed-move_files b [] j m e c = cc c
processed-move_files b (k ∷ js) j m e c = elim (Bool-cases (k == j)) [
  | inl t ↦
      let same = (==_iff k j).0 t in
      processed_stays (move_file b k) js j (ground (arith, t, move_file-inbox b k j))
      ∙ subst (λ x. get (move_file b x).processed j ≡ some m) (sym same)
          (move_file-processed b j m e)
  | inr f ↦
      processed-move_files (move_file b k) js j m (ground (arith, e, f, move_file-inbox b k j))
        (ground (arith, c, f))
]

module _ (probe : ℕ → Probe) (now : ℕ) (label : Text) (stop_hook_active : Bool)
    (meanwhile : Home → Home) (h : Home) where
  abbrev files : List Text
  files = available_files probe now (box h label)

  -- The files that the hook hands over.
  abbrev pub chosen : List Text
  chosen = take 5 files

  abbrev pub drained : Bool → Home × Option Text
  drained lock_free = drain probe now label lock_free stop_hook_active meanwhile h

  -- Each of the at most five files that the hook hands over could be taken by a hook.
  pub chosen_available :
      (length chosen ≤ 5)
      × ((j : Text)
          → contains chosen j ≡ true
          → is_available probe now (get (box h label).inbox j) ≡ true)
  unfolding available_files
  chosen_available = (
    length-take-le 5 (available_files probe now (box h label)),
    λ j c.
        contains-keep (λ i. is_available probe now (get (box h label).inbox i)) _ j
          (contains-take 5 _ j c),
  )

  abbrev moved : Home
  moved = set_box (meanwhile h) label (move_files (box (meanwhile h) label) chosen)

  abbrev choice : Option Text
  choice = decide (records_of (box h label) files) stop_hook_active 5 label

  abbrev unlocked : Home × Option Text
  unlocked = drain_unlocked probe now label stop_hook_active meanwhile h
