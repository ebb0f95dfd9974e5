-- ===== src/Locked/Serial.antt =====
-- src/teammate_mcp/registry.py: interleaved updates under the lock.
use teammate_mcp.Base.{
  option_eq, nat_eq, text_eq, ℕ, ◌≡◌, refl, sym, ap, ◌∙◌, true, some, List, [], ◌∷◌, arith,
}
use teammate_mcp.Locked.{
  give_up, loaded, Shared, after_attempt, is_in, Step, start, attempt, load, save, leave, Run, stop,
  then_step,
}

some_same : (p q : ℕ) → some p ≡ some q → p ≡ q
some_same p q e = ground (arith, e)

module _ {D : Type 0} where
  -- Whoever is between the lock and its release holds it, and what a process has read is what the
  -- file still says.
  pub record IsSound (s : Shared D) : Type 0 where
    pub holds : (p : ℕ) → is_in (s.phase p) ≡ true → s.holder ≡ some p
    pub fresh : (p : ℕ) (d : D) → s.phase p ≡ loaded d → s.file ≡ d

  -- A process that is in is the only one.
  alone :
      (s : Shared D) (p q : ℕ)
      → IsSound s
      → is_in (s.phase p) ≡ true
      → is_in (s.phase q) ≡ true
      → q ≡ p
  alone s p q i a b = some_same q p (sym (i.holds q b) ∙ i.holds p a)

  module _ (update : ℕ → D → D) where
    -- The updates of the processes, one after another.
    abbrev pub run_all : List ℕ → D → D
    run_all [] d = d
    run_all (p ∷ ps) d = update p (run_all ps d)

    step-IsSound : (s t : Shared D) → Step update s t → IsSound s → IsSound t
    unfolding after_attempt
    step-IsSound s _ (start p e) i = record {
      holds = λ q a. ground (arith, a, i.holds q);
      fresh = λ q d a. ground (arith, a, i.fresh q d);
    }
    step-IsSound s _ (attempt p g l e f) i = record {
      holds = λ q a. ground (arith, a, e, f, i.holds q);
      fresh = λ q d a. ground (arith, a, e, f, i.fresh q d);
    }
    step-IsSound s _ (give_up p e) i = record {
      holds = λ q a. ground (arith, a, i.holds q);
      fresh = λ q d a. ground (arith, a, i.fresh q d);
    }
    step-IsSound s _ (load p e) i = record {
      holds = λ q a. ground (arith, a, e, i.holds q);
      fresh = λ q d a. ground (arith, a, e, i.fresh q d);
    }
    step-IsSound s _ (save p d e) i = record {
      holds = λ q a. ground (arith, a, e, i.holds q);
      fresh = λ q d' a. ground (arith, a, e, i.fresh q d', alone s p q i);
    }
    step-IsSound s _ (leave p e) i = record {
      holds = λ q a. ground (arith, a, e, i.holds q, alone s p q i);
      fresh = λ q d a. ground (arith, a, e, i.fresh q d);
    }

    -- The processes that wrote the file in a run, the last one first.
    abbrev pub add_save : {s t : Shared D} → Step update s t → List ℕ → List ℕ
    add_save (save p d e) ps = p ∷ ps
    add_save (start p e) ps = ps
    add_save (attempt p g l e f) ps = ps
    add_save (give_up p e) ps = ps
    add_save (load p e) ps = ps
    add_save (leave p e) ps = ps

    abbrev pub saves : {s t : Shared D} → Run update s t → List ℕ
    saves stop = []
    saves (then_step r k) = add_save k (saves r)

    -- A write does the whole update of its process to the file; no other step changes the file.
    step_serial :
        (s t : Shared D) (d : D) (ps : List ℕ) (k : Step update s t)
        → IsSound s
        → s.file ≡ run_all ps d
        → t.file ≡ run_all (add_save k ps) d
    step_serial s _ d ps (start p e) i h = h
    step_serial s _ d ps (attempt p g l e f) i h = h
    step_serial s _ d ps (give_up p e) i h = h
    step_serial s _ d ps (load p e) i h = h
    step_serial s _ d ps (save p x e) i h = ap (update p) (sym (i.fresh p x e) ∙ h)
    step_serial s _ d ps (leave p e) i h = h

    run-IsSound : (s t : Shared D) → Run update s t → IsSound s → IsSound t
    run-IsSound s _ stop i = i
    run-IsSound s t (then_step {t = v} r k) i = step-IsSound v t k (run-IsSound s v r i)

    saves_serial :
        (s t : Shared D) (r : Run update s t) → IsSound s → t.file ≡ run_all (saves r) s.file
    saves_serial s _ stop i = refl
    saves_serial s t (then_step {t = v} r k) i =
        step_serial v t s.file (saves r) k (run-IsSound s v r i) (saves_serial s v r i)

    -- However the steps of any processes interleave, from a state where nobody is in the lock's
    -- block, or all that are hold the lock and have read the file as it is: at most one process is
    -- in the block at a time, and the file is what the updates of the processes that wrote it make
    -- of it, each done whole and one after another, so that no update is lost.
    pub run_serial :
        (s t : Shared D) (r : Run update s t)
        → IsSound s
        → ((p q : ℕ) → is_in (t.phase p) ≡ true → is_in (t.phase q) ≡ true → p ≡ q)
          × (t.file ≡ run_all (saves r) s.file)
    run_serial s t r i = (λ p q a b. alone t q p (run-IsSound s t r i) b a, saves_serial s t r i)
