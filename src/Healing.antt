-- ===== src/Healing.antt =====
-- Self-healing: src_local/engines/healing.
pub mod Ledger
pub mod Patch
pub mod Verification
pub mod Penalty
