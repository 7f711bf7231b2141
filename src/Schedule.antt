-- ===== src/Schedule.antt =====
-- The scheduler (lib/schedule): cron expressions, and the registry of jobs.
pub mod Cron
pub mod Jobs
mod Tests
