-- ===== src/Analysis/World.antt =====
-- The manager with its worker threads (compute/analysis/runner.py): callers and workers take the lock
-- in any order, and a worker's `finally` block runs once, when its sweep ends.
use Prim.Native.String.{String}
use cat_automation.Prelude.{ℕ, ◌≡◌, Bool, Option, none, some, List, [], ◌∷◌, ◌++◌}
use cat_automation.Analysis.Job.{Job}
use cat_automation.Analysis.Queue.{
  Manager, new_manager, enqueue, cancel, cancel_job, clear_pending, stop_all, finish, set_total,
  record_verdict,
}

-- `workers` are the jobs of the threads that are started, or prepared and about to be, and have not
-- ended.
pub record World : Type 0 where
  pub manager : Manager
  pub workers : List Job

unfoldable pub with_thread : Option Job → List Job → List Job
with_thread none workers = workers
with_thread (some job) workers = workers ++ job ∷ []

pub data Event : Type 0 where
  enqueued : Job → Event
  canceled : Event
  canceled_job : ℕ → Event
  cleared : Event
  stopped_all : Event
  counted : ℕ → Event
  recorded : Bool → Event

-- A caller's request, or a progress report of a sweep.
unfoldable pub request : Event → World → World
unfolding with_thread clear_pending set_total
request (enqueued job) w =
    let (m, e) = enqueue job w.manager in
    record { manager = m; workers = with_thread e.thread w.workers }
request canceled w = record w { manager = cancel w.manager }
request (canceled_job job_id) w = record w { manager = cancel_job job_id w.manager }
request cleared w = record w { manager = clear_pending w.manager }
request stopped_all w = record w { manager = stop_all w.manager }
request (counted total) w = record w { manager = set_total total w.manager }
request (recorded present) w = record w { manager = record_verdict present w.manager }

-- The worker with the job `job` ends; `before` and `after` are the other workers.
unfoldable pub end_sweep : Job → Option String → List Job → Manager → World
unfolding with_thread clear_pending set_total
end_sweep job error others m =
    let (m', thread) = finish job error m in
    record { manager = m'; workers = with_thread thread others }

pub data Step : World → World → Type 0 where
  asks : (event : Event) (w : World) → Step w (request event w)
  ends :
      (before after : List Job) (job : Job) (error : Option String) (w : World)
      → w.workers ≡ before ++ job ∷ after
      → Step w (end_sweep job error (before ++ after) w.manager)

unfoldable pub new_world : World
new_world = record { manager = new_manager; workers = [] }

pub data Reach : World → Type 0 where
  begin : Reach new_world
  next : {w v : World} → Reach w → Step w v → Reach v
