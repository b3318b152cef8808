-- ===== src/Training/Finish.antt =====
-- What a training job leaves behind when it ends (compute/learning/runner.py).
use Prim.Native.String.{String}
use cat_automation.Prelude.{
  ℕ, ◌≡◌, refl, sym, ap, ◌∙◌, ◌⊎◌, Bool, true, false, Option, none, some, List, [], ◌∷◌, ◌++◌, ◌==◌,
  if◌then◌else◌, any,
}
use cat_automation.Training.Job.{TrainingJob, visit_identify_job}
use cat_automation.Training.Queue.{
  Terminal, canceled, TrainingEntry, Summary, RunEnd, returned, Trainer, start_next, promote_next,
  error_of, summary_of, terminal_state, some_or, close_job, finish_job,
}
use cat_automation.Training.Runs.{
  VisitRun, after_visit_detect, run_visit_identify, Shelf, Inserted, commit_raised,
}

abbrev pub last_state : List TrainingEntry → Option Terminal
last_state [] = none
last_state (entry ∷ history) = some entry.state

start_next-kept :
    (pending : List TrainingJob) (m : Trainer)
    → let (m', thread) = start_next pending m in (m'.history ≡ m.history) × (m'.result ≡ m.result)
unfolding start_next
start_next-kept [] m = (refl, refl)
start_next-kept (job ∷ pending) m = (refl, refl)

terminal_state-canceled :
    (error : Option String) (summary : Option Summary) (stopping : Bool)
    → terminal_state error summary stopping ≡ canceled
    → (error ≡ none) × (summary ≡ none) × (stopping ≡ true)
unfolding terminal_state
terminal_state-canceled (some error) summary stopping h = cc
terminal_state-canceled none (some summary) stopping h = cc
terminal_state-canceled none none true h = (refl, refl, refl)
terminal_state-canceled none none false h = cc

some_inj : {A : Type 0} {a b : A} → some a ≡ some b → a ≡ b
some_inj h = cc h

-- Whatever way a run ends: the history tells the job as canceled only if a cancel was asked for, the run
-- returned no summary and raised no error; the last result is then the one of before.
finish_job-canceled :
    (job : TrainingJob) (end : RunEnd (Option Summary)) (m : Trainer)
    → let (m', thread) = finish_job job end m in
      last_state m'.history ≡ some canceled
      → (m.stopping ≡ true)
        × (summary_of end ≡ none)
        × (error_of end ≡ none)
        × (m'.result ≡ m.result)
unfolding finish_job promote_next close_job
finish_job-canceled job end m h =
    let closed = close_job job end m in
    let (history, result) = start_next-kept m.pending closed in
    let state : some (terminal_state (error_of end) (summary_of end) m.stopping) ≡ some canceled =
      sym (ap last_state history) ∙ h in
    let (e, no_summary, stopping) =
      terminal_state-canceled (error_of end) (summary_of end) m.stopping (some_inj state) in
    (stopping, no_summary, e, result ∙ ap (λ o. some_or o m.result) no_summary)

-- A stop that lands while a visit's frames are detected, in a detect pass that raises nothing: the history
-- tells the job as canceled, whatever the gallery would have said, and the last result stays.
pub finish_job-run_visit_identify :
    (v : VisitRun) (start_id end_id : ℕ) (m : Trainer)
    → v.detect_error ≡ none
    → v.stopped ≡ true
    → m.stopping ≡ true
    → let (m', thread) =
        finish_job (visit_identify_job start_id end_id) (run_visit_identify v start_id end_id) m in
      (last_state m'.history ≡ some canceled) × (m'.result ≡ m.result)
unfolding finish_job promote_next close_job run_visit_identify after_visit_detect
finish_job-run_visit_identify v start_id end_id m d s c =
    let job = visit_identify_job start_id end_id in
    let ended : run_visit_identify v start_id end_id ≡ returned none = rw (d, s) refl in
    let closed = close_job job (returned none) m in
    let (history, result) = start_next-kept m.pending closed in
    rw ended (ap last_state history ∙ rw c refl, result)

-- The COMMIT of the row fails.
abbrev pub is_commit_raised : Inserted → Bool
is_commit_raised (commit_raised error) = true
is_commit_raised _ = false

-- A row that names the directory and a good end, or no committed row and no directory.
abbrev pub IsClean : ℕ → Bool → Shelf → Shelf × RunEnd (Option Summary) → Type 0
IsClean out_dir in_commit s (s', end) =
    (s'.rows ≡ s.rows ++ (s.uncommitted ++ (out_dir ∷ []))) × (error_of end ≡ none)
    ⊎ (s'.rows ≡ s.rows)
      × (any (λ dir. dir == out_dir) s'.dirs ≡ false)
      × (s'.uncommitted ≡ (if in_commit then s.uncommitted ++ (out_dir ∷ []) else s.uncommitted))
