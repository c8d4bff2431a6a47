-- ===== src/Tests.antt =====
-- Runs of the models at concrete inputs.
mod Memory
mod Store
mod Staging
mod Registries
mod Planning
mod Runtime
pub mod Leases
mod Profiles
mod Sources
mod Journal
