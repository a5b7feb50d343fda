-- ===== src/Quota.antt =====
-- The daily quota of generated media, go/media_quota.go: a run reserves one unit, and commits or
-- releases it when the media call has ended.
pub mod Store
pub mod Policy
pub mod Usage
pub mod Media
pub mod Limits
pub mod Counts
pub mod Cost
pub mod Scenarios
