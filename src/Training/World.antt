-- ===== src/Training/World.antt =====
-- `TrainingManager` (compute/learning/runner.py) with its worker threads: callers and workers take the lock in
-- any order, and a worker's `finally` block runs once, when its run ends.
use cat_automation.Prelude.{ℕ, ◌≡◌, Option, none, some, List, [], ◌∷◌, ◌++◌}
use cat_automation.Training.Job.{TrainingJob}
use cat_automation.Training.Queue.{
  Summary, RunEnd, Trainer, new_trainer, submit, cancel_training, clear_training, stop_training,
  set_progress, finish_job,
}

-- `workers` are the jobs of the threads that are started, or prepared and about to be, and have not
-- ended.
pub record TrainerWorld : Type 0 where
  pub trainer : Trainer
  pub workers : List TrainingJob

unfoldable pub with_worker : Option TrainingJob → List TrainingJob → List TrainingJob
with_worker none workers = workers
with_worker (some job) workers = job ∷ workers

pub data TrainerCall : Type 0 where
  submitted : TrainingJob → TrainerCall
  cancels : TrainerCall
  clears : TrainerCall
  stops_all : TrainerCall
  progresses : ℕ → ℕ → TrainerCall

unfoldable pub call_trainer : TrainerCall → TrainerWorld → TrainerWorld
unfolding with_worker submit cancel_training clear_training stop_training set_progress
call_trainer (submitted job) w =
    let (m, s) = submit job w.trainer in
    record { trainer = m; workers = with_worker s.thread w.workers }
call_trainer cancels w = record w { trainer = cancel_training w.trainer }
call_trainer clears w = record w { trainer = clear_training w.trainer }
call_trainer stops_all w = record w { trainer = stop_training w.trainer }
call_trainer (progresses n total) w = record w { trainer = set_progress n total w.trainer }

-- The worker with the job `job` ends; `others` are the other workers.
unfoldable pub end_worker :
    TrainingJob → RunEnd (Option Summary) → List TrainingJob → Trainer → TrainerWorld
unfolding with_worker finish_job
end_worker job end others m =
    let (m', thread) = finish_job job end m in
    record { trainer = m'; workers = with_worker thread others }

pub data TrainerStep : TrainerWorld → TrainerWorld → Type 0 where
  calls : (call : TrainerCall) (w : TrainerWorld) → TrainerStep w (call_trainer call w)
  ends :
      (before after : List TrainingJob) (job : TrainingJob) (end : RunEnd (Option Summary))
      (w : TrainerWorld)
      → w.workers ≡ before ++ job ∷ after
      → TrainerStep w (end_worker job end (before ++ after) w.trainer)

unfoldable pub new_trainer_world : TrainerWorld
unfolding new_trainer
new_trainer_world = record { trainer = new_trainer; workers = [] }

pub data TrainerReach : TrainerWorld → Type 0 where
  begin : TrainerReach new_trainer_world
  next : {w v : TrainerWorld} → TrainerReach w → TrainerStep w v → TrainerReach v
