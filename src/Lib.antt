-- ===== src/Lib.antt =====
-- A verification library of the cat-door monitor: the compute tier's frame store, its coverage
-- metadata and visit counts, its cleanup job, the queue of its analysis sweeps, and the edge
-- tier's night light.
--
-- The parts and how they interact. The edge serves its frames as the parts of a stream, each with
-- a header block, and a status as JSON (shared/wire.py). The collector stores each frame by
-- `Store.add` (compute/collection/store.py), which evicts older frames once the total of the JPEGs
-- passes the cap; the cleanup job deletes non-motion frames in batches. Both leave a trace, an
-- eviction frontier and purge spans, which `Store.motion_only_spans` joins with the changes of the
-- capture mode to the id ranges where non-motion frames may be missing. The scorecards cluster the
-- frames that an analyzer found a subject in into visits. The verdicts come from sweeps that
-- `AnalysisManager` (compute/analysis/runner.py) runs one at a time from a queue.
-- `TrainingManager` (compute/learning/runner.py) runs the training jobs from a queue of its own.
-- `YoloOracleManager` (compute/learning/yolo_oracle.py) sweeps the new frames as they come. The
-- live-identification worker names the visits that are closed beyond its watermark. At the door,
-- `NightLight` (edge/server/night_light.py) switches a lamp through `GpioOutputs`
-- (edge/actuators/gpio.py) at the times that the sun gives.
--
-- Files:
-- - Prelude, and its children Tests, Lists, Sort, Int and Options: names of the libraries, Boolean
--   tests on native numbers, lists and a stable insertion sort, which stands for Python's and for
--   ORDER BY.
-- - Visits: Split is `Store._gap_split`; Counts is `_split_into_visits`, `_visit_caught`,
--   `_cluster_visits` and `_cluster_visits_split`. Closed is `Store.closed_visits`. Runs, Caught
--   and Settled hold their theorems.
-- - Spans: Coalesce is `_coalesce_id_spans`, MotionOnly is `Store.motion_only_spans` over the rows
--   of its queries. Union and Coverage hold their theorems.
-- - Store: Tables is the state, Delete is `_delete_frame_locked`, Evict is `_evict_locked`, Halted
--   is the same up to a write that raises, Add is `add` and `clear`, Purge is
--   `purge_nonmotion_batch` and `record_purge_span`, Mode is `record_mode_change`. Rows holds
--   lemmas on rows with ascending ids; Counted, Oldest, Sparing, Preferred and Untouched are about
--   eviction, Atomic about `add`.
-- - Collector: Manager is `CollectorManager` (compute/collection/collector.py), Run is
--   `run_collector` over `Store.add`. Logged, Recorded and Quiet hold their theorems.
-- - Cleanup: Slot is `CleanupManager` (compute/collection/cleanup.py) with its callers and worker
--   threads as a step relation, Nonmotion is `CleanupManager._run_nonmotion`, Orphan is
--   `_run_orphan` with `Store.delete_orphan_batch`; Strip and Batch are about one batch, Progress
--   about the loop, Span about the span's end, Found about rows and ids, Purged and Recorded about
--   the job, Swept and Orphans about the sweep for orphans.
-- - Edge: Gpio is `GpioOutputs` (edge/actuators/gpio.py), NightLight is the scheduler of
--   edge/server/night_light.py. Watchdog is the polling loop of edge/server/watchdog.py. Tracking,
--   Schedule, Throttle and Stalls hold their theorems.
-- - Analysis: Job is `_Job`, Queue is the methods of `AnalysisManager`, World its callers and
--   worker threads as a step relation. Enqueue, Narrow, Serial and Drain hold their theorems.
-- - Live: Worker is the state and the lifecycle calls of `LiveIdentifyManager`
--   (compute/learning/live_identify.py), Tick is `_tick` over `Store.closed_visits`. Watermark,
--   Passed, Stopped, Kept and Saved hold their theorems.
-- - Wire: Text and Number are the operations of Python that shared/wire.py uses, Part is
--   `format_part_headers` and `parse_part_headers`, Status is `parse_status` and the route
--   `status` of edge/server/app.py. Lines, Digits, Dict, RoundTrip, Unknown and Answer hold their
--   theorems.
-- - Training: Job is `_Job` and `_norm_excluded` (compute/learning/runner.py), Queue the methods
--   of `TrainingManager`, Runs two of its run functions, World its callers and worker threads as a
--   step relation. Excluded, Finish and Serial hold their theorems.
-- - Oracle: Worker is the state and the lifecycle calls of `YoloOracleManager`
--   (compute/learning/yolo_oracle.py), Tick is `_tick`. Tiles and Seeded hold their theorems.
-- - Tests: runs on concrete inputs.
--
-- How state corresponds. A table is the list of its rows in rowid order; the columns that the
-- modelled methods do not read are left out. The media directory is the list of its paths. A
-- method under the lock is one function from the state to the state and its result; an exception
-- that is raised again is `none`. What SQL returns for the modelled queries is written out as
-- filters, sorts and prefixes of the rows. Timestamps and ids are natural numbers. Python's
-- integers are unbounded, and so are these.
--
-- Fuel. The `while` loop of the eviction has fuel for one round per row and one more; a round that
-- finds rows deletes at least one, so the fuel is never used up while the total is over the cap.
-- The loop of the purge has one round more than the store has rows, and a round that goes on has
-- deleted a row; that is enough where the other threads add no frame that the purge selects. The
-- loop over the windows of a sweep has fuel for one round per id and one more; a round advances by
-- at least one id.
--
-- Not modelled: the motion gate, image analysis, the passes of identification and training, the
-- HTTP layer, and the edge tier's capture. The sun times that the night light asks for are a
-- parameter.
pub mod Prelude
pub mod Visits
pub mod Spans
pub mod Store
pub mod Cleanup
pub mod Collector
pub mod Analysis
pub mod Edge
pub mod Live
pub mod Wire
pub mod Training
pub mod Oracle
pub mod Tests
