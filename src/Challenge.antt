-- ===== src/Challenge.antt =====
-- src/challenge/: the solvers of the three challenge types and their registry.
pub mod Solvers
pub mod Steps
pub mod Fresh
pub mod Once
pub mod DnsCache
pub mod Resolver
