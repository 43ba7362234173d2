-- ===== src/Sync.antt =====
-- src/sync.rs: fetching a commit with all its ancestors from peers, with a checkpoint on disk.
pub mod Fetch
pub mod Failover
pub mod Job
pub mod Visit
pub mod Dag
pub mod Complete
pub mod Visited
pub mod Ends
