-- ===== src/Store.antt =====
-- internal/store: where snapshots live, and how they are written, read, listed and retired.
pub mod Layout
pub mod Refs
pub mod Retention
pub mod Snapshots
pub mod Resolver
pub mod Barman
pub mod S3
