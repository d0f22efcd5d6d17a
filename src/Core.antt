-- ===== src/Core.antt =====
-- src_local/core: the parts below the engines.
pub mod TaskPool
pub mod TestEngine
