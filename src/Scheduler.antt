-- ===== src/Scheduler.antt =====
-- src/scheduler/: the background work on certificates.
pub mod Renewal
pub mod Draining
pub mod Cleanup
pub mod Swept
