-- ===== src/Screen/Compose.antt =====
-- src/teammate_mcp/watcher.py: what the watchdog does at a screen.
use teammate_mcp.Base.{
  is_some, option_eq, nat_eq, text_eq, ℕ, ◌≤◌, ◌≡◌, ◌↔◌, true, false, not, ◌&&◌, ◌||◌, arith,
}
use teammate_mcp.Base.Text.{Text}
use teammate_mcp.Screen.{
  compose_text, is_blank, screen_compose_is_empty, screen_user_is_typing, wake, skip_typing,
  wake_starved, wake_action,
}

-- The compose box is never both empty and typed in; and it is one of them exactly if a prompt is
-- seen on a screen that is not empty.
pub compose_exclusive :
    (screen : Text)
    → ((screen_compose_is_empty screen && screen_user_is_typing screen) ≡ false)
      × ((screen_compose_is_empty screen || screen_user_is_typing screen)
          ≡ (not (is_blank screen) && is_some (compose_text screen)))
unfolding screen_compose_is_empty screen_user_is_typing
compose_exclusive screen = (ground arith, ground arith)

-- The decision for a pane with mail is "skip-typing" exactly if the user has typed something; so
-- a wake, also after starvation, never meets typed text. A working pane waits until the timeout.
pub wake_action_safe :
    (screen : Text) (waited timeout : ℕ)
    → ((wake_action screen waited timeout ≡ skip_typing) ↔ (screen_user_is_typing screen ≡ true))
      × ((wake_action screen waited timeout ≡ wake) ↔ (screen_compose_is_empty screen ≡ true))
      × ((wake_action screen waited timeout ≡ wake_starved) ↔ (
          (screen_compose_is_empty screen ≡ false)
          × (screen_user_is_typing screen ≡ false)
          × (timeout ≤ waited)))
unfolding wake_action
wake_action_safe screen waited timeout =
    let x = (compose_exclusive screen).0 in
    (
      (λ h. ground (arith, h, x), λ h. ground (arith, h, x)),
      (λ h. ground (arith, h, x), λ h. ground (arith, h, x)),
      (λ h. ground (arith, h, x), λ h. ground (arith, h.0, h.1, h.2, x)),
    )
