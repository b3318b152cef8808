-- ===== src/Live.antt =====
-- The always-on worker that names new visits: compute/learning/live_identify.py.
pub mod Worker
pub mod Tick
pub mod Watermark
pub mod Kept
pub mod Passed
pub mod Stopped
pub mod Saved
