-- ===== src/Channel/Address.antt =====
-- Which messages the pump notifies.
use teammate_mcp.Base.{option_eq, nat_eq, text_eq, ℕ, ◌≡◌, true, false, ◌&&◌, Option, some, arith}
use teammate_mcp.Base.Text.{Text}
use teammate_mcp.Registry.{nonempty}
use teammate_mcp.Mailbox.{Home}
use teammate_mcp.Lease.{Probe}
use teammate_mcp.Channel.{Pump, is_current, Visit, differs, scan_once}

differs-false :
    (owner : Text) (value : Option Text)
    → nonempty owner ≡ true
    → differs (some owner) value ≡ false
    → value ≡ some owner
differs-false owner value n d = ground (arith, n, d)

-- A pump that is not ready, or whose connection is no longer the label's, does nothing.
pub scan_once_silent :
    (p : Pump) (probe : ℕ → Probe) (v : Text → Visit) (h : Home)
    → (p.is_ready && is_current p h.registry) ≡ false
    → scan_once p probe v h ≡ h
unfolding scan_once
scan_once_silent p probe v h e = ground (arith, e)
