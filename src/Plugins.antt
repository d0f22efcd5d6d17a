-- ===== src/Plugins.antt =====
-- The plugins of the agent: src_local/psa/plugins.
pub mod Compaction
pub mod Todo
