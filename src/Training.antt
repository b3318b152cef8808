-- ===== src/Training.antt =====
-- The queue of the training jobs: compute/learning/runner.py.
pub mod Job
pub mod Excluded
pub mod Queue
pub mod Runs
pub mod Finish
pub mod World
pub mod Serial
