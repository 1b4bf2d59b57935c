-- ===== src/Server.antt =====
-- src/server/: the HTTP interface of the program, its keys, its handlers and their background tasks.
pub mod State
pub mod Auth
pub mod Account
pub mod Certificate
pub mod Order
pub mod Health
pub mod Tasks
pub mod Jobs
pub mod Sound
pub mod Kept
