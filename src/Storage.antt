-- ===== src/Storage.antt =====
-- src/storage/: the backends that keep values under keys, and what is built on them.
pub mod Backend
pub mod Memory
pub mod Encrypted
pub mod Certificates
pub mod AnyOrder
pub mod Files
pub mod Redis
pub mod RedisMap
pub mod Paths
pub mod Unlisted
pub mod Migration
