-- ===== src/Tests.antt =====
-- Runs at concrete data, and the theorems at inputs that meet their hypotheses.
pub mod Data
pub mod Addresses
pub mod Delivery
pub mod Storage
pub mod Tools
pub mod Panes
pub mod Commands
