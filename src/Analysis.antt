-- ===== src/Analysis.antt =====
-- The queue of analysis sweeps: `AnalysisManager` of compute/analysis/runner.py.
pub mod Job
pub mod Queue
pub mod World
pub mod Enqueue
pub mod Narrow
pub mod Serial
pub mod Drain
