-- ===== src/Schedule.antt =====
-- lib/schedule: cron expressions, the registry of jobs, and the ticks that fire them.
pub mod Cron
pub mod Registry
