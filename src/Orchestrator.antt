-- ===== src/Orchestrator.antt =====
-- src/orchestrator/: workflows that are built on the client.
pub mod Provisioner
pub mod Fresh
pub mod Renewer
pub mod Validator
