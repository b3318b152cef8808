-- ===== src/Collector.antt =====
-- The collector (compute/collection/collector.py) and its manager.
pub mod Manager
pub mod Run
pub mod Logged
pub mod Recorded
pub mod Quiet
