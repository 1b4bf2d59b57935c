-- ===== src/Protocol.antt =====
-- src/protocol/: the directory, the nonces, the keys and the signatures of the protocol.
pub mod Jws
pub mod Jwk
pub mod Directory
pub mod Nonce
pub mod Request
pub mod Fresh
pub mod Replied
pub mod Once
pub mod NoncePool
