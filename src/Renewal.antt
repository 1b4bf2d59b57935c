-- ===== src/Renewal.antt =====
-- src/renewal/mod.rs: renewing certificates before they expire.
pub mod Window
pub mod Scheduler
pub mod Results
