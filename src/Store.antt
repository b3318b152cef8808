-- ===== src/Store.antt =====
-- The rolling frame store of compute/collection/store.py: its tables and counters, `Store.add`, the
-- eviction, the purge of non-motion frames and `Store.clear`.
pub mod Tables
pub mod Delete
pub mod Rows
pub mod Evict
pub mod Halted
pub mod Counted
pub mod Oldest
pub mod Sparing
pub mod Preferred
pub mod Untouched
pub mod Add
pub mod Atomic
pub mod Purge
pub mod Mode
