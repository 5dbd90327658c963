-- ===== src/Dashboard.antt =====
-- dashboard/: the event bus of the live dashboard.
pub mod Bus
