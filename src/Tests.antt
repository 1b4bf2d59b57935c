-- ===== src/Tests.antt =====
-- Runs of the model at concrete inputs, and the theorems at inputs that meet their hypotheses.
mod Toy
mod Client
mod Protocol
mod Transport
mod Storage
mod Orchestrator
mod Scheduler
mod Account
mod Cache
mod Notifications
mod Config
mod Crypto
mod Certificate
mod Renewal
mod Dns
mod Server
mod Bundles
mod Files
mod Cli
