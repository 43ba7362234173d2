-- ===== src/Examples.antt =====
-- Runs of the model at concrete values, with stand-ins for the crates blake3, hex, serde_json and iroh.
pub mod Crates
mod Wires
mod Heads
pub mod Schedules
mod Replicas
mod Paths
mod Trees
mod Stores
mod Policies
mod Signatures
mod Seals
mod Announcements
pub mod Vaults
pub mod Sweeps
pub mod Members
mod Syncs
