-- ===== src/Cleanup.antt =====
-- The cleanup job: `CleanupManager` of compute/collection/cleanup.py.
pub mod Nonmotion
pub mod Slot
pub mod Orphan
pub mod Swept
pub mod Orphans
pub mod Strip
pub mod Batch
pub mod Progress
pub mod Span
pub mod Found
pub mod Purged
pub mod Recorded
