-- ===== src/Client.antt =====
-- src/client.rs: the client that registers an account, orders and issues certificates.
pub mod Config
pub mod Issue
pub mod Fresh
pub mod Results
pub mod Once
