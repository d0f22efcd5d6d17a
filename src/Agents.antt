-- ===== src/Agents.antt =====
-- The local agents: src_local/utils/ai.
pub mod Runtime
pub mod Offline
pub mod Stream
