-- ===== src/Kernel.antt =====
-- The micro-kernel: src_local/psa.
pub mod Approval
pub mod EventBus
pub mod Loading
pub mod Loop
pub mod Plugins
pub mod Sessions
pub mod Tools
pub mod Waterfall
