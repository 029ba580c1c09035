-- ===== src/Scheduler.antt =====
-- Where an invocation runs: the choice of a version, the affinity of sessions to VMs, and timed
-- triggers (internal/scheduler).
pub mod Ring
pub mod Router
pub mod Sessions
pub mod Cron
pub mod Work
pub mod Submit
mod Tests
