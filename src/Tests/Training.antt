-- ===== src/Tests/Training.antt =====
-- Training jobs (compute/learning/runner.py): a build, a double click on it, and a visit.
use cat_automation.Prelude.{ℕ, ◌≡◌, refl, true, none, some, List, [], ◌∷◌, ◌++◌, arith}
use cat_automation.Training.Job.{TrainingJob, norm_excluded, gallery_build_job, visit_identify_job}
use cat_automation.Training.Excluded.{submit-gallery_build_job}
use cat_automation.Training.Queue.{
  Trainer, new_trainer, submit, cancel_training, finish_job, canceled, returned, embed_cancelled,
}
use cat_automation.Training.Runs.{VisitRun, run_visit_identify, Shelf, Build, commit_raised}
use cat_automation.Training.Finish.{last_state, finish_job-run_visit_identify}
use cat_automation.Training.World.{
  TrainerWorld, begin, next, calls, ends, submitted, call_trainer, end_worker, new_trainer_world,
}
use cat_automation.Training.Serial.{IsSerialTrainer, TrainerReach-IsSerialTrainer}

unticked : norm_excluded (5 ∷ 2 ∷ 5 ∷ []) ≡ some (2 ∷ 5 ∷ [])
unfolding norm_excluded
unticked = refl

abbrev build : List ℕ → TrainingJob
build excluded = gallery_build_job ("clean" ∷ []) (some 40) excluded none

-- A build runs.
abbrev building : Trainer
building = (submit (build (5 ∷ 2 ∷ [])) new_trainer).0

submit-gallery_build_job_example :
    submit (build (2 ∷ 5 ∷ 2 ∷ [])) building
    ≡ (building, record { position = 0; deduped = true; thread = none })
submit-gallery_build_job_example =
    submit-gallery_build_job ("clean" ∷ []) (some 40) none (5 ∷ 2 ∷ []) (2 ∷ 5 ∷ 2 ∷ []) building
      (unfold submit new_trainer in refl) (unfold submit new_trainer in refl) (λ n. ground arith)

abbrev visiting : Trainer
visiting = cancel_training (submit (visit_identify_job 3 9) new_trainer).0

abbrev stopped_visit : VisitRun
stopped_visit = record {
  detect_error = none;
  stopped = true;
  has_model = true;
  identified = returned 4;
}

finish_job-run_visit_identify_example :
    let (m', thread) =
      finish_job (visit_identify_job 3 9) (run_visit_identify stopped_visit 3 9) visiting in
    (last_state m'.history ≡ some canceled) × (m'.result ≡ visiting.result)
finish_job-run_visit_identify_example =
    finish_job-run_visit_identify stopped_visit 3 9 visiting refl refl
      (unfold submit cancel_training new_trainer in refl)

abbrev shelf : Shelf
shelf = record { dirs = 100 ∷ []; rows = 100 ∷ []; uncommitted = [] }

-- The COMMIT of the row finds the disk full.
abbrev full_disk : Build
full_disk = record {
  built = returned true;
  dirs = 100 ∷ 200 ∷ [];
  is_removable = true;
  insert = commit_raised "disk full";
}

-- A build and a visit are asked for; the build ends.
abbrev asked : TrainerWorld
asked =
    call_trainer (submitted (visit_identify_job 3 9))
      (call_trainer (submitted (build [])) new_trainer_world)

abbrev asked_workers : asked.workers ≡ [] ++ build [] ∷ []
unfolding call_trainer new_trainer_world submit gallery_build_job visit_identify_job
asked_workers = refl

TrainerReach-IsSerialTrainer_example :
    IsSerialTrainer (end_worker (build []) embed_cancelled [] asked.trainer)
TrainerReach-IsSerialTrainer_example = TrainerReach-IsSerialTrainer (
    next
      (next (next begin (calls (submitted (build [])) new_trainer_world)) (
        calls (submitted (visit_identify_job 3 9))
          (call_trainer (submitted (build [])) new_trainer_world)))
      (ends [] [] (build []) embed_cancelled asked asked_workers))
