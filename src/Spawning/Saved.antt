-- ===== src/Spawning/Saved.antt =====
-- src/teammate_mcp/cli.py: what is read back of a saved spawn ledger.
use teammate_mcp.Base.{
  Bool-cases, Option-cases, option_eq, nat_eq, text_eq, All, ◌≡◌, refl, sym, ap, ◌∙◌, inl, inr,
  true, none, some, List, [], ◌∷◌, ◌++◌, arith,
}
use teammate_mcp.Base.Text.{Text}
use teammate_mcp.Base.Dict.{Dict, get, put, pop, get-put, get-pop}
use teammate_mcp.Registry.{nonempty}
use teammate_mcp.Spawning.{
  Child, Line, bad, object, load_line, load_from, load_spawn_ledger, save_spawn_ledger,
}

-- Every entry stands under its own label, which is not empty and stands nowhere else.
abbrev pub IsKeyed : Dict Child → Type 0
IsKeyed [] = Unit
IsKeyed ((k, c) ∷ d) = (get d k ≡ none) × (c.label ≡ some k) × (nonempty k ≡ true) × IsKeyed d

put-IsKeyed :
    (d : Dict Child) (k : Text) (c : Child)
    → c.label ≡ some k
    → nonempty k ≡ true
    → IsKeyed d
    → IsKeyed (put d k c)
unfolding get put
put-IsKeyed [] k c l n i = (refl, l, n, tt)
put-IsKeyed ((j, b) ∷ d) k c l n (fresh, own, full, i) =
    ground (arith, l, n, put-IsKeyed d k c l n i, get-put d k j c)

load_line-IsKeyed : (d : Dict Child) (l : Line) → IsKeyed d → IsKeyed (load_line d l)
load_line-IsKeyed d bad i = i
load_line-IsKeyed d (object c) i = elim (Option-cases c.label) [
  | inl e ↦ rw e i
  | inr (k, e) ↦ elim (Bool-cases (nonempty k)) [
    | inl n ↦ rw (e, n) (put-IsKeyed d k c e n i)
    | inr n ↦ rw (e, n) i
  ]
]

load_from-IsKeyed : (d : Dict Child) (lines : List Line) → IsKeyed d → IsKeyed (load_from d lines)
unfolding load_from
load_from-IsKeyed d [] i = i
load_from-IsKeyed d (l ∷ lines) i =
    load_from-IsKeyed (load_line d l) lines (load_line-IsKeyed d l i)

pub load_spawn_ledger-IsKeyed : (lines : List Line) → IsKeyed (load_spawn_ledger lines)
unfolding load_spawn_ledger
load_spawn_ledger-IsKeyed lines = load_from-IsKeyed [] lines tt

pub pop-IsKeyed : (d : Dict Child) (k : Text) → IsKeyed d → IsKeyed (pop d k)
unfolding pop
pop-IsKeyed [] k i = tt
pop-IsKeyed ((j, b) ∷ d) k (fresh, own, full, i) = ground (arith, pop-IsKeyed d k i, get-pop d k j)

-- A new key goes to the end.
put-fresh :
    (d : Dict Child) (k : Text) (c : Child) → get d k ≡ none → put d k c ≡ d ++ ((k, c) ∷ [])
unfolding get put
put-fresh [] k c f = refl
put-fresh ((j, b) ∷ d) k c f = ground (arith, put-fresh d k c)

get-append : (d e : Dict Child) (k : Text) → get d k ≡ none → get (d ++ e) k ≡ get e k
unfolding get
get-append [] e k f = refl
get-append ((j, b) ∷ d) e k f = ground (arith, get-append d e k)

append_assoc : (a b c : Dict Child) → (a ++ b) ++ c ≡ a ++ (b ++ c)
append_assoc [] b c = refl
append_assoc (x ∷ a) b c = ap (◌∷◌ x) (append_assoc a b c)

-- No key of one dict is a key of the other.
abbrev AreApart : Dict Child → Dict Child → Type 0
AreApart out d = All (λ x. get out x.0 ≡ none) d

apart_more :
    (out d : Dict Child) (k : Text) (c : Child)
    → get d k ≡ none
    → AreApart out d
    → AreApart (put out k c) d
unfolding get
apart_more out [] k c f a = tt
apart_more out ((j, b) ∷ d) k c f (o, a) =
    ground (arith, get-put out k j c, apart_more out d k c, o, a)

load_line_own :
    (out : Dict Child) (k : Text) (c : Child)
    → c.label ≡ some k
    → nonempty k ≡ true
    → load_line out (object c) ≡ put out k c
load_line_own out k c own full = ground (arith, own, full)

load_from-save :
    (out d : Dict Child)
    → IsKeyed d
    → AreApart out d
    → load_from out (save_spawn_ledger d) ≡ out ++ d
unfolding load_from save_spawn_ledger
load_from-save out [] i a = sym (append_nil out)
  where
    append_nil : (d : Dict Child) → d ++ [] ≡ d
    append_nil [] = refl
    append_nil (x ∷ d) = ap (◌∷◌ x) (append_nil d)
load_from-save out ((k, c) ∷ d) (fresh, own, full, i) (o, a) =
    ap (λ x. load_from x (save_spawn_ledger d)) (load_line_own out k c own full)
    ∙ (load_from-save (put out k c) d i (apart_more out d k c fresh a)
        ∙ ap (λ x. x ++ d) (put-fresh out k c o)
        ∙ append_assoc out ((k, c) ∷ []) d)

apart_nil : (d : Dict Child) → AreApart [] d
unfolding get
apart_nil [] = tt
apart_nil (x ∷ d) = (refl, apart_nil d)

pub load-save : (d : Dict Child) → IsKeyed d → load_spawn_ledger (save_spawn_ledger d) ≡ d
unfolding load_spawn_ledger
load-save d i = load_from-save [] d i (apart_nil d)
