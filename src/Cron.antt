-- ===== src/Cron.antt =====
-- cron/: the scheduler of periodic jobs.
pub mod Scheduler
