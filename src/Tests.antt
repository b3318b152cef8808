-- ===== src/Tests.antt =====
-- Runs of the models on concrete inputs, which the theorems apply to.
pub mod Visits
pub mod Spans
pub mod Store
pub mod Analysis
pub mod Cleanup
pub mod Collector
pub mod Edge
pub mod Live
pub mod Wire
pub mod Training
pub mod Oracle
pub mod Watchdog
