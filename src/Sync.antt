-- ===== src/Sync.antt =====
-- pkg/service/service.go and pkg/repository/repository.go: bundles, snapshots, their quota and
-- their retention.
pub mod Tables
pub mod Usage
pub mod Guard
pub mod Bundles
pub mod Covered
pub mod Live
pub mod Uploads
pub mod Success
pub mod Promises
pub mod Reservations
pub mod Prune
pub mod Snapshots
pub mod Pruned
pub mod SnapshotRows
pub mod SnapshotUploads
pub mod Retention
pub mod Owned
pub mod Keys
pub mod OwnedUploads
pub mod Purged
pub mod Expired
pub mod History
mod Tests
