-- ===== src/Snapshot.antt =====
-- internal/snapshot: a Cluster's configuration as a portable snapshot. The groups that may be
-- captured, the denylist, the check of rule paths, the snapshot itself and its capture.
pub mod Groups
pub mod Denylist
pub mod PathCheck
pub mod Types
pub mod Extract
