-- ===== src/Maintenance.antt =====
-- The maintenance engines: src_local/engines/maintenance.
pub mod Budget
