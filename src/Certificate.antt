-- ===== src/Certificate.antt =====
-- src/certificate/ and the certificates of src/order/csr.rs: what is read off a parsed certificate.
pub mod X509
pub mod Chain
pub mod Ocsp
