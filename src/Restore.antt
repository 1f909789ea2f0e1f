-- ===== src/Restore.antt =====
-- internal/restore: a snapshot and a policy become the changes to a Cluster being created.
pub mod Skip
pub mod Transform
pub mod Plan
pub mod RecoveryTarget
pub mod Select
