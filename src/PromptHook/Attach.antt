-- ===== src/PromptHook/Attach.antt =====
-- hooks/user_prompt_submit_inbox_drain.py: what the prompt hook attaches and what it leaves.
use teammate_mcp.Base.{
  leb, Bool-cases, option_eq, nat_eq, text_eq, take, ℕ, ◌-◌, ◌≤◌, inl, inr, Bool, Option, List, [],
  ◌∷◌, arith,
}
use teammate_mcp.Base.Text.{Text}
use teammate_mcp.Mailbox.{Home, box, set_box}
use teammate_mcp.Lease.{Probe}
use teammate_mcp.StopHook.{move_files, available_files}
use teammate_mcp.PromptHook.{env_int, utf8_width, utf8_length, utf8_prefix, Limits, submit}

utf8_length-utf8_prefix : (n : ℕ) (s : Text) → utf8_length (utf8_prefix n s) ≤ n
unfolding utf8_length utf8_prefix
utf8_length-utf8_prefix n [] = omega arith
utf8_length-utf8_prefix n (c ∷ s) = elim (Bool-cases (leb (utf8_width c) n)) [
  | inl t ↦ ground (arith, t, utf8_length-utf8_prefix (n - utf8_width c) s)
  | inr f ↦ ground (arith, f)
]

module _ (probe : ℕ → Probe) (now : ℕ) (root label : Text) (limits : Limits)
    (meanwhile : Home → Home) (h : Home) where
  -- The files that the hook attaches.
  abbrev pub selected : List Text
  selected = take (env_int limits.max_attach 5) (available_files probe now (box h label))

  abbrev pub submitted : Bool → Home × Option Text
  submitted lock_free = submit probe now root label lock_free limits meanwhile h

  abbrev attached : Home
  attached = set_box (meanwhile h) label (move_files (box (meanwhile h) label) selected)
