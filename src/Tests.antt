-- ===== src/Tests.antt =====
-- Runs at concrete inputs, a module for each part of the program.
pub mod Paths
pub mod RestoreRun
pub mod Captures
pub mod Stores
pub mod Choices
pub mod Keys
pub mod Filtered
pub mod Plugin
pub mod Admission
pub mod Hooked
pub mod Sweeps
pub mod Buckets
pub mod Derived
