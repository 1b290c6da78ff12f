-- ===== src/Scheduler.antt =====
-- pam-loadtest/internal/scheduler.
pub mod Launch
