-- ===== src/Config.antt =====
-- src/config.rs and src/ca.rs: the settings, where they come from, and the authority they name.
pub mod Ca
pub mod Settings
pub mod Load
pub mod Overrides
pub mod Results
