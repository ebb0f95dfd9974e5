-- ===== src/Locked.antt =====
-- src/teammate_mcp/registry.py: `_exclusive_lock` and the updates under it, `with _exclusive_lock():
-- data = load(); ...; _save_raw(data)`, by any number of processes whose steps interleave. A process
-- is its number; `update` is what it makes of the file. `flock` is the operating system's: it grants
-- the lock only if no process holds it, and takes it from a process that ends.
pub mod Serial
use teammate_mcp.Base.{
  if◌then◌else◌, Eq, ◌==◌, option_eq, nat_eq, text_eq, any, ℕ, ◌-◌, ◌/◌, ◌≡◌, Bool, true, false,
  not, Option, none, some, [], arith,
}

-- Where a process is: not in the `with`, in the loop, in it with the lock, with the file read, with
-- the file written, or thrown out of the loop by the deadline.
pub data Phase (D : Type 0) : Type 0 where
  outside trying locked saved timed_out : Phase D
  loaded : D → Phase D

pub record Shared (D : Type 0) : Type 0 where
  pub file : D
  pub holder : Option ℕ
  pub phase : ℕ → Phase D

module _ {D : Type 0} where
  -- One pass of the loop.
  unfoldable pub after_attempt : Bool → Bool → Phase D
  after_attempt granted late = if granted then locked else if late then timed_out else trying

  abbrev pub set_phase : (ℕ → Phase D) → ℕ → Phase D → ℕ → Phase D
  set_phase f p x q = if q == p then x else f q

  abbrev pub move : Shared D → ℕ → Phase D → Shared D
  move s p x = record s { phase = set_phase s.phase p x }

  -- The process is between the lock and its release.
  abbrev pub is_in : Phase D → Bool
  is_in locked = true
  is_in (loaded d) = true
  is_in saved = true
  is_in _ = false

  module _ (update : ℕ → D → D) where
    -- A step of one process.
    pub data Step (s : Shared D) : Shared D → Type 0 where
      start : (p : ℕ) → s.phase p ≡ outside → Step s (move s p trying)
      attempt :
          (p : ℕ) (granted late : Bool)
          → s.phase p ≡ trying
          → (granted ≡ true → s.holder ≡ none)
          → Step s (record (move s p (after_attempt granted late)) {
            holder = if granted then some p else s.holder;
          })
      -- Another error of `flock`, or the end of the process.
      give_up : (p : ℕ) → s.phase p ≡ trying → Step s (move s p outside)
      load : (p : ℕ) → s.phase p ≡ locked → Step s (move s p (loaded s.file))
      save :
          (p : ℕ) (d : D)
          → s.phase p ≡ loaded d
          → Step s (record (move s p saved) { file = update p d })
      -- The end of the block, by a return, an exception or the end of the process.
      leave :
          (p : ℕ) → is_in (s.phase p) ≡ true → Step s (record (move s p outside) { holder = none })

    -- Any number of steps, in any order.
    pub data Run (s : Shared D) : Shared D → Type 0 where
      stop : Run s s
      then_step : {t u : Shared D} → Run s t → Step t u → Run s u
