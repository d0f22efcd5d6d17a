-- ===== src/Diagnostics.antt =====
-- Diagnostics of the code base: src_local/engines/diagnostics.
pub mod Gaps
pub mod Scorecard
pub mod Graph
pub mod Intelligence
pub mod Audit
