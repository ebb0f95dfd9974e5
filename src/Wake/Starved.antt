-- ===== src/Wake/Starved.antt =====
-- src/teammate_mcp/watcher.py: a pane with mail that is always working.
use teammate_mcp.Base.{
  leb, if◌then◌else◌, Bool-cases, option_eq, nat_eq, text_eq, All, ℕ, ◌+◌, ◌≤◌, ◌<◌, ◌≡◌, ap, ◌∙◌,
  ◌⊎◌, inl, inr, Bool, true, false, not, ◌&&◌, none, some, List, [], ◌∷◌, ◌++◌, arith,
}
use teammate_mcp.Base.Text.{Text}
use teammate_mcp.Base.Dict.{get, get-put}
use teammate_mcp.Mailbox.{Home}
use teammate_mcp.Screen.{
  Action, wake, wake_starved, wait, wake_action, screen_compose_is_empty, screen_user_is_typing,
}
use teammate_mcp.Wake.{Clocks, get_or, Pass, waited, act, watch_label}

-- The screen shows no prompt: the session is in the middle of a turn.
abbrev pub is_working : Text → Bool
is_working screen = not (screen_compose_is_empty screen) && not (screen_user_is_typing screen)

abbrev pub is_attempt : Action → Bool
is_attempt wake = true
is_attempt wake_starved = true
is_attempt _ = false

abbrev pub action_of : Pass → Text → Text → Clocks → Action
action_of p sid label k = wake_action (p.screens sid) (waited p k label) 90000

-- In how many passes over a candidate a wake was attempted.
unfoldable pub attempts : Text → Text → List Pass → Clocks → Home → ℕ
unfolding wake_action watch_label
attempts sid label [] k h = 0
attempts sid label (p ∷ ps) k h =
    let r = watch_label p sid label k h in
    (if is_attempt (action_of p sid label k) then 1 else 0) + attempts sid label ps r.clocks r.home

module _ (sid label : Text) where
  abbrev pub AllWorking : List Pass → Type 0
  AllWorking = All (λ p. is_working (p.screens sid) ≡ true)

  working_action :
      (p : Pass) (k : Clocks)
      → is_working (p.screens sid) ≡ true
      → action_of p sid label k ≡ (if leb 90000 (waited p k label) then wake_starved else wait)
  unfolding wake_action
  working_action p k w = ground (arith, w)

  -- A pass over a working pane is an attempt, or sets the clock where it is not set.
  clock_stays :
      (p : Pass) (k : Clocks) (h : Home) (t : ℕ)
      → is_working (p.screens sid) ≡ true
      → get_or k.starving_since label p.now ≡ t
      → (is_attempt (action_of p sid label k) ≡ true)
        ⊎ ((get (watch_label p sid label k h).clocks.starving_since label ≡ some t)
            × (p.now < t + 90000))
  unfolding watch_label
  clock_stays p k h t w e = elim (Bool-cases (leb 90000 (waited p k label))) [
    | inl y ↦ inl (ground (arith, y, working_action p k w))
    | inr n ↦
        let a : action_of p sid label k ≡ wait = ground (arith, n, working_action p k w) in
        inr (
          ap (λ x. get (act p sid label k h x).clocks.starving_since label) a
              ∙ ground (arith, e, get-put k.starving_since label label t),
          ground (arith, n, e),
        )
  ]

  started_is_woken :
      (ps : List Pass) (q : Pass) (k : Clocks) (h : Home) (t : ℕ)
      → get k.starving_since label ≡ some t
      → AllWorking (ps ++ q ∷ [])
      → t + 90000 ≤ q.now
      → 1 ≤ attempts sid label (ps ++ q ∷ []) k h
  unfolding attempts
  started_is_woken [] q k h t e (w, ws) late = elim (clock_stays q k h t w (ground (arith, e))) [
    | inl y ↦ rw y (omega arith)
    | inr (s, m) ↦ absurd (omega (arith, late, m))
  ]
  started_is_woken (p ∷ ps) q k h t e (w, ws) late =
      elim (clock_stays p k h t w (ground (arith, e))) [
        | inl y ↦ rw y (omega arith)
        | inr (s, m) ↦ omega (
          arith,
          started_is_woken ps q (watch_label p sid label k h).clocks
              (watch_label p sid label k h).home t s ws late,
        )
      ]

  -- A pane with mail that is a candidate in pass after pass, and that works each time, is
  -- attempted at the latest 90 seconds after the first of them.
  pub starved_is_woken :
      (p q : Pass) (ps : List Pass) (k : Clocks) (h : Home)
      → get k.starving_since label ≡ none
      → AllWorking (p ∷ (ps ++ q ∷ []))
      → p.now + 90000 ≤ q.now
      → 1 ≤ attempts sid label (p ∷ (ps ++ q ∷ [])) k h
  unfolding attempts
  starved_is_woken p q ps k h e (w, ws) late =
      elim (clock_stays p k h p.now w (ground (arith, e))) [
        | inl y ↦ rw y (omega arith)
        | inr (s, m) ↦ omega (
          arith,
          started_is_woken ps q (watch_label p sid label k h).clocks
              (watch_label p sid label k h).home p.now s ws late,
        )
      ]
