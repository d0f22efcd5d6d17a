-- ===== src/Governance.antt =====
-- The engines that govern the system: src_local/core/governance.
pub mod Compliance
pub mod Resources
pub mod Veto
