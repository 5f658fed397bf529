-- ===== src/Limits.antt =====
-- internal/limits/limits.go: per-client resource use.
pub mod Bucket
pub mod Tracker
pub mod Suppression
pub mod Sweep
pub mod World
