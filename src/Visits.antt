-- ===== src/Visits.antt =====
-- Clustering of frames into visits: `Store._gap_split` and what stands on it, in
-- compute/collection/store.py.
pub mod Split
pub mod Runs
pub mod Counts
pub mod Caught
pub mod Closed
pub mod Settled
