-- ===== src/Base/Dict.antt =====
-- Python's dict with text keys, in insertion order. Proofs elsewhere go by the laws; only tests
-- and the loops over a whole dict unfold the operations.
use mathlib.Core.Path.{◌≡◌, refl}
use mathlib.Core.Bool.{Bool, true, false}
use mathlib.Core.Option.{Option, none, some}
use mathlib.Core.List.{List, [], ◌∷◌}
use native.Mathlib.Omega.{arith}
use teammate_mcp.Base.Core.{◌==◌, text_eq, if◌then◌else◌}
use teammate_mcp.Base.Text.{Text}

abbrev pub Dict {ℓ} : Type ℓ → Type ℓ
Dict V = List (Text × V)

module _ {ℓ} {V : Type ℓ} where
  -- `d.get(k)`
  unfoldable pub get : Dict V → Text → Option V
  unfolding text_eq
  get [] k = none
  get ((j, v) ∷ d) k = if j == k then some v else get d k

  -- `d[k] = v`: an old key keeps its place
  unfoldable pub put : Dict V → Text → V → Dict V
  put [] k v = (k, v) ∷ []
  put ((j, w) ∷ d) k v = if j == k then (k, v) ∷ d else (j, w) ∷ put d k v

  -- `d.pop(k, None)`
  unfoldable pub pop : Dict V → Text → Dict V
  pop [] k = []
  pop ((j, w) ∷ d) k = let rest = pop d k in if j == k then rest else (j, w) ∷ rest

  unfoldable pub keys : Dict V → List Text
  keys [] = []
  keys ((j, w) ∷ d) = j ∷ keys d

  pub get-put :
      (d : Dict V) (k j : Text) (v : V) → get (put d k v) j ≡ (if k == j then some v else get d j)
  unfolding get put
  get-put [] k j v = refl
  get-put ((i, w) ∷ d) k j v = ground (arith, get-put d k j v)

  pub get-pop : (d : Dict V) (k j : Text) → get (pop d k) j ≡ (if k == j then none else get d j)
  unfolding get pop
  get-pop [] k j = ground arith
  get-pop ((i, w) ∷ d) k j = ground (arith, get-pop d k j)

  -- No key twice.
  abbrev pub NodupKeys : Dict V → Type ℓ
  NodupKeys [] = Unit
  NodupKeys ((k, v) ∷ d) = (get d k ≡ none) × NodupKeys d

  -- `{k: v for k, v in d.items() if p(k, v)}`
  unfoldable pub keep_items : (Text → V → Bool) → Dict V → Dict V
  keep_items p [] = []
  keep_items p ((j, w) ∷ d) = let rest = keep_items p d in if p j w then (j, w) ∷ rest else rest

  abbrev pub sift : (V → Bool) → Option V → Option V
  sift p none = none
  sift p (some v) = if p v then some v else none

  pub get-keep_items_absent :
      (p : Text → V → Bool) (d : Dict V) (j : Text) → get d j ≡ none → get (keep_items p d) j ≡ none
  unfolding get keep_items
  get-keep_items_absent p [] j h = refl
  get-keep_items_absent p ((i, w) ∷ d) j h = ground (arith, get-keep_items_absent p d j)

  pub get-keep_items :
      (p : Text → V → Bool) (d : Dict V) (j : Text)
      → NodupKeys d
      → get (keep_items p d) j ≡ sift (p j) (get d j)
  unfolding get keep_items
  get-keep_items p [] j n = refl
  get-keep_items p ((i, w) ∷ d) j (fresh, n) =
      ground (arith, get-keep_items p d j n, get-keep_items_absent p d j)

  pub put-NodupKeys : (d : Dict V) (k : Text) (v : V) → NodupKeys d → NodupKeys (put d k v)
  unfolding get put
  put-NodupKeys [] k v n = (refl, tt)
  put-NodupKeys ((j, w) ∷ d) k v (fresh, n) = ground (arith, put-NodupKeys d k v n, get-put d k j v)

  pub pop-NodupKeys : (d : Dict V) (k : Text) → NodupKeys d → NodupKeys (pop d k)
  unfolding pop
  pop-NodupKeys [] k n = tt
  pop-NodupKeys ((j, w) ∷ d) k (fresh, n) = ground (arith, pop-NodupKeys d k n, get-pop d k j)

  pub keep_items-NodupKeys :
      (p : Text → V → Bool) (d : Dict V) → NodupKeys d → NodupKeys (keep_items p d)
  unfolding keep_items
  keep_items-NodupKeys p [] n = tt
  keep_items-NodupKeys p ((j, w) ∷ d) (fresh, n) =
      ground (arith, keep_items-NodupKeys p d n, get-keep_items_absent p d j)

  -- `next((k, v) for k, v in d.items() if p(k, v))`
  unfoldable pub find_item : (Text → V → Bool) → Dict V → Option (Text × V)
  find_item p [] = none
  find_item p ((j, w) ∷ d) = let rest = find_item p d in if p j w then some (j, w) else rest

  -- What a search finds passes its test and stands in the dict.
  pub find_item_sound :
      (p : Text → V → Bool) (d : Dict V) (k : Text) (v : V)
      → NodupKeys d
      → find_item p d ≡ some (k, v)
      → (p k v ≡ true) × (get d k ≡ some v)
  unfolding find_item get
  find_item_sound p [] k v n h = cc
  find_item_sound p ((j, w) ∷ d) k v (fresh, n) h = ground (arith, find_item_sound p d k v n)

  -- A search that fails has seen every entry fail.
  pub find_item-none :
      (p : Text → V → Bool) (d : Dict V) (k : Text) (v : V)
      → find_item p d ≡ none
      → get d k ≡ some v
      → p k v ≡ false
  unfolding find_item get
  find_item-none p [] k v h g = cc
  find_item-none p ((j, w) ∷ d) k v h g = ground (arith, find_item-none p d k v)

pub ruleset dict_laws = (get-put, get-pop)
