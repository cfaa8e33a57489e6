-- ===== src/Store.antt =====
-- crates/idr-store: the file store of contract histories.
pub mod Error
pub mod Contract
pub mod Snapshot
pub mod Consistency
pub mod Invalidation
pub mod History
pub mod Sealing
pub mod Validity
pub mod Accepted
pub mod Anchors
pub mod Machine
pub mod Files
pub mod Reserve
pub mod Receipts
pub mod Commit
pub mod Permits
pub mod Operations
pub mod Steps
