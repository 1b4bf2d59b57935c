-- ===== src/Crypto.antt =====
-- src/crypto/: encodings.
pub mod Hex
