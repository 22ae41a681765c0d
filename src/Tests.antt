-- ===== src/Tests.antt =====
-- The theorems on small inputs: one file for each part.
pub mod Levels
pub mod Health
pub mod Tables
pub mod Runs
pub mod Relocate
pub mod Roles
pub mod Deploy
pub mod Sync
pub mod Awg
pub mod Limiter
pub mod Quote
pub mod Migrations
pub mod Upgrade
pub mod Topology
pub mod Traffic
pub mod Address
pub mod Caddy
pub mod Clone
