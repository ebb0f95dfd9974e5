-- ===== src/Spawning/Placed.antt =====
-- src/teammate_mcp/cli.py: where `spawn` puts the next pane.
use teammate_mcp.Base.{
  Bool-cases, Option-cases, option_eq, nat_eq, text_eq, keep, All, ◌≤◌, ◌≡◌, refl, ap, inl, inr,
  true, false, none, some, [], ◌∷◌, arith,
}
use teammate_mcp.Base.Sorting.{
  last_of, sort_by, All-map, IsOrder, last_of-sort_by, All-last_of-sort_by,
}
use teammate_mcp.Base.Text.{Text, upper}
use teammate_mcp.Base.Dict.{Dict}
use teammate_mcp.Registry.{Registry, nonempty}
use teammate_mcp.Spawning.{
  Child, normalize_term_session_id, live_sids, values, is_sibling, spawned_before, Placement,
  window, split_v, split_h, siblings, auto_placement,
}
use mathlib.Core.List.{Memᴰ}
use mathlib.Core.List.Memᴰ
use teammate_mcp.Base.Dict.{Dict}
use teammate_mcp.Registry.{nonempty, Registry}

spawned_before-IsOrder : IsOrder spawned_before
spawned_before-IsOrder = record {
  total = λ x y e. ground (arith, e);
  trans = λ x y z e f. ground (arith, e, f);
}

-- The entries that pass the test are the siblings.
module _ (ledger : Dict Child) (d : Registry) (caller : Text) where
  abbrev pub IsSibling : Child → Type 0
  IsSibling c = is_sibling caller (live_sids d) c ≡ true

  mem-siblings :
      (l : Dict Child) (c : Child)
      → Memᴰ c (keep (is_sibling caller (live_sids d)) (values l))
      → (k : Text) × Memᴰ (k, c) l × IsSibling c
  mem-siblings [] c m = absurd (Memᴰ.not-nil m)
  mem-siblings ((k, x) ∷ l) c m = elim (Bool-cases (is_sibling caller (live_sids d) x)) [
    | inl e ↦ elim (Memᴰ.cases_cons (rw e at m)) [
      | inl f ↦ (k, Memᴰ.head (ap (λ y. (k, y)) f), rw f e)
      | inr n ↦ let (j, p, q) = mem-siblings l c n in (j, Memᴰ.tail p, q)
    ]
    | inr e ↦ let (j, p, q) = mem-siblings l c (rw e at m) in (j, Memᴰ.tail p, q)
  ]

  All-siblings {ℓ} :
      (P : Child → Type ℓ) (l : Dict Child)
      → All P (keep (is_sibling caller (live_sids d)) (values l))
      → All (λ x. IsSibling x.1 → P x.1) l
  All-siblings P [] a = tt
  All-siblings P ((k, x) ∷ l) a = elim (Bool-cases (is_sibling caller (live_sids d) x)) [
    | inl e ↦ (let b = rw e at a in (λ s. b.0, All-siblings P l b.1))
    | inr e ↦ (λ s. absurd (cc (e, s)), All-siblings P l (rw e at a))
  ]

  -- Where a pane may be put: in a window of its own if the caller is unknown, beside the caller if
  -- none of its children lives, and otherwise under a live child that none was spawned after.
  pub data IsPlaced : Placement × Text → Type 0 where
    apart : caller ≡ [] → IsPlaced (window, [])
    beside :
        nonempty caller ≡ true
        → All (λ x. is_sibling caller (live_sids d) x.1 ≡ false) ledger
        → IsPlaced (split_v, caller)
    under :
        nonempty caller ≡ true
        → (k : Text) (c : Child) → Memᴰ (k, c) ledger
        → IsSibling c
        → All (λ x. IsSibling x.1 → x.1.spawned_at ≤ c.spawned_at) ledger
        → IsPlaced (split_h, upper (normalize_term_session_id c.session_id))

  -- The placement of the next pane: a window of its own exactly if the caller is not known, beside
  -- the caller if the ledger holds no live child of the caller, and otherwise under a live child of
  -- the caller, from the ledger, that no live child of the caller was spawned after.
  pub auto_placement-IsPlaced : IsPlaced (auto_placement ledger d caller)
  unfolding auto_placement siblings
  auto_placement-IsPlaced = elim (Bool-cases (nonempty caller)) [
    | inr e ↦ rw e (apart (empty_caller caller e))
    | inl e ↦ elim (Option-cases (last_of (sort_by spawned_before (siblings ledger d caller)))) [
      | inl f ↦ rw (e, f) (beside e (none_left f))
      | inr (c, f) ↦ rw (e, f) (found e c f)
    ]
  ]
    where
      empty_caller : (t : Text) → nonempty t ≡ false → t ≡ []
      empty_caller [] n = refl
      empty_caller (c ∷ s) n = absurd (cc n)

      none_left :
          last_of (sort_by spawned_before (siblings ledger d caller)) ≡ none
          → All (λ x. is_sibling caller (live_sids d) x.1 ≡ false) ledger
      none_left f =
          All-map {Q = λ x. is_sibling caller (live_sids d) x.1 ≡ false}
            (λ x n. elim (Bool-cases (is_sibling caller (live_sids d) x.1)) [
              | inl e ↦ absurd (n e)
              | inr e ↦ e
            ])
            ledger
            (All-siblings (λ x. ⊥) ledger
              (All-last_of-sort_by spawned_before (λ x. ⊥) (siblings ledger d caller) f))

      found :
          nonempty caller ≡ true
          → (c : Child) → last_of (sort_by spawned_before (siblings ledger d caller)) ≡ some c
          → IsPlaced (split_h, upper (normalize_term_session_id c.session_id))
      found e c f =
          let (m, latest) =
            last_of-sort_by spawned_before spawned_before-IsOrder c (siblings ledger d caller) f in
          let (k, p, s) = mem-siblings ledger c m in
          under e k c p s (
            All-siblings (λ x. x.spawned_at ≤ c.spawned_at) ledger
              (All-map (λ x b. ground (arith, b)) (siblings ledger d caller) latest))
