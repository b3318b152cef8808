-- ===== src/Training/Serial.antt =====
-- `TrainingManager` (compute/learning/runner.py) under its callers and worker threads, which take the lock in
-- any order.
use cat_automation.Prelude.{
  ◌≡◌, ◌≤◌, refl, sym, ap, ◌∙◌, inl, inr, ◌⊎◌, Bool, true, false, Option, none, some, List, [], ◌∷◌,
  ◌++◌, length, length-take-le, if◌then◌else◌, Bool-cases, arith,
}
use cat_automation.Training.Job.{TrainingJob}
use cat_automation.Training.Queue.{
  training_history_limit, Summary, RunEnd, Trainer, start_next, promote_next, append_job, submit,
  cancel_training, clear_training, stop_training, set_progress, close_job, finish_job,
  is_current_job, TrainingEntry, terminal_state, error_of, summary_of,
}
use cat_automation.Training.World.{
  TrainerWorld, with_worker, submitted, cancels, clears, stops_all, progresses, call_trainer,
  end_worker, TrainerStep, calls, ends, new_trainer_world, TrainerReach, begin, next,
}

abbrev pub job_list : Option TrainingJob → List TrainingJob
job_list none = []
job_list (some job) = job ∷ []

abbrev pub has_job : Option TrainingJob → Bool
has_job none = false
has_job (some job) = true

pub record IsSerialTrainer (w : TrainerWorld) : Type 0 where
  pub one_worker : w.workers ≡ job_list w.trainer.current_job
  pub flag : w.trainer.running ≡ has_job w.trainer.current_job
  pub idle_empty : (w.trainer.running ≡ true) ⊎ (w.trainer.pending ≡ [])
  pub history_bounded : length w.trainer.history ≤ training_history_limit

-- The idle manager with the queue `pending`, after the next promotion.
start_next-IsSerialTrainer :
    (pending : List TrainingJob) (m : Trainer)
    → m.current_job ≡ none
    → m.running ≡ false
    → m.pending ≡ pending
    → length m.history ≤ training_history_limit
    → let (m', thread) = start_next pending m in
      IsSerialTrainer (record { trainer = m'; workers = with_worker thread [] })
unfolding start_next with_worker
start_next-IsSerialTrainer [] m c r p h = record {
  one_worker = rw c refl;
  flag = rw (c, r) refl;
  idle_empty = inr p;
  history_bounded = h;
}
start_next-IsSerialTrainer (job ∷ pending) m c r p h = record {
  one_worker = refl;
  flag = refl;
  idle_empty = inl refl;
  history_bounded = h;
}

has_job-none : (o : Option TrainingJob) → has_job o ≡ false → o ≡ none
has_job-none none h = refl
has_job-none (some job) h = cc

append_job-IsSerialTrainer :
    (job : TrainingJob) (w : TrainerWorld)
    → IsSerialTrainer w
    → let (m, s) = append_job job w.trainer in
      IsSerialTrainer (record { trainer = m; workers = with_worker s.thread w.workers })
unfolding append_job promote_next with_worker
append_job-IsSerialTrainer job w s =
    let m' : Trainer = record (w.trainer) {
      running = false;
      pending = w.trainer.pending ++ job ∷ [];
    } in
    elim (Bool-cases w.trainer.running) [
      | inl r ↦ simp r (record {
        one_worker = s.one_worker;
        flag = sym r ∙ s.flag;
        idle_empty = inl refl;
        history_bounded = s.history_bounded;
      })
      | inr r ↦
          let idle = has_job-none w.trainer.current_job (sym s.flag ∙ r) in
          simp (r, s.one_worker ∙ ap job_list idle)
            (start_next-IsSerialTrainer m'.pending m' idle refl refl s.history_bounded)
    ]

finish_job-IsSerialTrainer :
    (job : TrainingJob) (end : RunEnd (Option Summary)) (m : Trainer)
    → IsSerialTrainer (end_worker job end [] m)
unfolding end_worker finish_job promote_next close_job
finish_job-IsSerialTrainer job end m =
    let entry : TrainingEntry = record {
      job = job;
      state = terminal_state (error_of end) (summary_of end) m.stopping;
      error = error_of end;
    } in
    start_next-IsSerialTrainer m.pending (close_job job end m) refl refl refl
      (length-take-le training_history_limit (entry ∷ m.history))

submit-IsSerialTrainer :
    (job : TrainingJob) (w : TrainerWorld)
    → IsSerialTrainer w
    → IsSerialTrainer (call_trainer (submitted job) w)
unfolding call_trainer submit with_worker
submit-IsSerialTrainer job w s =
    elim (Bool-cases
      (if w.trainer.running then is_current_job job w.trainer.current_job else false)) [
        | inl twice ↦ rw twice s
        | inr new ↦ rw new (append_job-IsSerialTrainer job w s)
      ]

only_job :
    (before after : List TrainingJob) (job : TrainingJob) (o : Option TrainingJob)
    → job_list o ≡ before ++ job ∷ after
    → (before ≡ []) × (after ≡ [])
only_job [] after job none h = cc
only_job (b ∷ before) after job none h = cc
only_job [] after job (some current) h = (refl, cc)
only_job (b ∷ []) after job (some current) h = cc
only_job (b ∷ c ∷ before) after job (some current) h = cc

-- The fields that `IsSerialTrainer` is about, but for a flag and a queue that may empty.
keep_serial :
    (m : Trainer) (w : TrainerWorld)
    → m.current_job ≡ w.trainer.current_job
    → m.running ≡ w.trainer.running
    → m.history ≡ w.trainer.history
    → (m.pending ≡ w.trainer.pending) ⊎ (m.pending ≡ [])
    → IsSerialTrainer w
    → IsSerialTrainer (record w { trainer = m })
keep_serial m w c r h p s = record {
  one_worker = s.one_worker ∙ ap job_list (sym c);
  flag = r ∙ s.flag ∙ ap has_job (sym c);
  idle_empty = ground (arith, r, p, s.idle_empty);
  history_bounded = rw h s.history_bounded;
}

cancel_training-kept :
    (m : Trainer)
    → let m' = cancel_training m in
      (m'.current_job ≡ m.current_job)
      × (m'.running ≡ m.running)
      × (m'.history ≡ m.history)
      × (m'.pending ≡ m.pending)
unfolding cancel_training
cancel_training-kept m = ground arith

stop_training-kept :
    (m : Trainer)
    → let m' = stop_training m in
      (m'.current_job ≡ m.current_job)
      × (m'.running ≡ m.running)
      × (m'.history ≡ m.history)
      × (m'.pending ≡ [])
unfolding stop_training
stop_training-kept m = ground arith

TrainerStep-IsSerialTrainer :
    {w v : TrainerWorld} → TrainerStep w v → IsSerialTrainer w → IsSerialTrainer v
unfolding call_trainer
TrainerStep-IsSerialTrainer (calls (submitted job) w) s = submit-IsSerialTrainer job w s
TrainerStep-IsSerialTrainer (calls cancels w) s =
    let (c, r, h, p) = cancel_training-kept w.trainer in
    keep_serial (cancel_training w.trainer) w c r h (inl p) s
TrainerStep-IsSerialTrainer (calls clears w) s =
    keep_serial (clear_training w.trainer) w refl refl refl (inr refl) s
TrainerStep-IsSerialTrainer (calls stops_all w) s =
    let (c, r, h, p) = stop_training-kept w.trainer in
    keep_serial (stop_training w.trainer) w c r h (inr p) s
TrainerStep-IsSerialTrainer (calls (progresses n total) w) s =
    keep_serial (set_progress n total w.trainer) w refl refl refl (inl refl) s
TrainerStep-IsSerialTrainer (ends before after job end w e) s =
    let (b, a) = only_job before after job w.trainer.current_job (sym s.one_worker ∙ e) in
    rw (b, a) (finish_job-IsSerialTrainer job end w.trainer)

-- Whatever the callers ask and however the runs end: there is one worker thread, with the running job, or
-- none; no job waits while none runs; and the history holds at most `training_history_limit` entries.
pub TrainerReach-IsSerialTrainer : {w : TrainerWorld} → TrainerReach w → IsSerialTrainer w
unfolding new_trainer_world
TrainerReach-IsSerialTrainer begin = record {
  one_worker = refl;
  flag = refl;
  idle_empty = inr refl;
  history_bounded = omega arith;
}
TrainerReach-IsSerialTrainer (next r st) =
    TrainerStep-IsSerialTrainer st (TrainerReach-IsSerialTrainer r)
