-- ===== src/Training/Queue.antt =====
-- `TrainingManager` (compute/learning/runner.py): the pending jobs, the running one, the history and the
-- last result. Each method is one hold of the lock. A method that prepares a thread returns its job.
use Prim.Native.String.{String}
use cat_automation.Prelude.{
  ℕ, Bool, true, false, Option, none, some, List, [], ◌∷◌, ◌++◌, length, take, if◌then◌else◌,
}
use cat_automation.Training.Job.{TrainingJob, same_training}

abbrev pub training_history_limit : ℕ
training_history_limit = 20

-- How a finished job is told of in the history.
pub data Terminal : Type 0 where
  failed canceled done : Terminal

pub record TrainingEntry : Type 0 where
  pub job : TrainingJob
  pub state : Terminal
  pub error : Option String

-- What a run's summary tells: the id of the row that a probe or a build made, or none for too few labels;
-- the count of an identify pass with its window; the same of a visit, and whether there was a model.
pub data Summary : Type 0 where
  feasibility_summary : Option ℕ → Summary
  gallery_summary : Option ℕ → Summary
  identify_summary : ℕ → Option ℕ → Option ℕ → Summary
  visit_summary : ℕ → Bool → ℕ → ℕ → Summary

-- How a run function ends: with a value, with EmbedCancelled, or with another exception.
pub data RunEnd {ℓ} (A : Type ℓ) : Type ℓ where
  returned : A → RunEnd A
  embed_cancelled : RunEnd A
  raised : String → RunEnd A

-- `shown` is the job of `_kind` and `_params`; `stopping` is the flag of `stop_event`.
pub record Trainer : Type 0 where
  pub running : Bool
  pub shown : Option TrainingJob
  pub done : ℕ
  pub total : ℕ
  pub error : Option String
  pub result : Option Summary
  pub stopping : Bool
  pub pending : List TrainingJob
  pub current_job : Option TrainingJob
  pub history : List TrainingEntry

unfoldable pub new_trainer : Trainer
new_trainer = record {
  running = false;
  shown = none;
  done = 0;
  total = 0;
  error = none;
  result = none;
  stopping = false;
  pending = [];
  current_job = none;
  history = [];
}

unfoldable pub start_next : List TrainingJob → Trainer → Trainer × Option TrainingJob
start_next [] m = (m, none)
start_next (job ∷ pending) m = (
  record m {
    pending = pending;
    current_job = some job;
    shown = some job;
    done = 0;
    total = 0;
    error = none;
    stopping = false;
    running = true;
  },
  some job,
)

-- `_promote_locked`
unfoldable pub promote_next : Trainer → Trainer × Option TrainingJob
unfolding start_next
promote_next m = if m.running then (m, none) else start_next m.pending m

-- What `_enqueue` returns beside the status, and the thread that it starts.
pub record Submitted : Type 0 where
  pub position : ℕ
  pub deduped : Bool
  pub thread : Option TrainingJob

unfoldable pub is_current_job : TrainingJob → Option TrainingJob → Bool
unfolding same_training
is_current_job job none = false
is_current_job job (some current) = same_training current job

-- The part of `_enqueue` after the test for a double click.
unfoldable pub append_job : TrainingJob → Trainer → Trainer × Submitted
unfolding promote_next
append_job job m =
    let m' : Trainer = record m { pending = m.pending ++ job ∷ [] } in
    let (promoted, thread) = promote_next m' in
    if m.running
    then (m', record { position = length m'.pending; deduped = false; thread = none })
    else (promoted, record { position = 0; deduped = false; thread = thread })

-- `_enqueue`
unfoldable pub submit : TrainingJob → Trainer → Trainer × Submitted
unfolding is_current_job append_job
submit job m =
    if (if m.running then is_current_job job m.current_job else false)
    then (m, record { position = 0; deduped = true; thread = none })
    else append_job job m

unfoldable pub cancel_training : Trainer → Trainer
cancel_training m = if m.running then record m { stopping = true } else m

unfoldable pub clear_training : Trainer → Trainer
clear_training m = record m { pending = [] }

unfoldable pub stop_training : Trainer → Trainer
stop_training m =
    let cleared : Trainer = record m { pending = [] } in
    if m.running then record cleared { stopping = true } else cleared

unfoldable pub set_progress : ℕ → ℕ → Trainer → Trainer
set_progress n total m = record m { done = n; total = total }

unfoldable pub error_of : RunEnd (Option Summary) → Option String
error_of (raised error) = some error
error_of _ = none

unfoldable pub summary_of : RunEnd (Option Summary) → Option Summary
summary_of (returned summary) = summary
summary_of _ = none

-- The branches of `_run`'s `finally` block.
unfoldable pub terminal_state : Option String → Option Summary → Bool → Terminal
terminal_state (some error) summary stopping = failed
terminal_state none (some summary) stopping = Terminal.done
terminal_state none none stopping = if stopping then canceled else Terminal.done

unfoldable pub some_or : {A : Type 0} → Option A → Option A → Option A
some_or none prior = prior
some_or (some a) prior = some a

-- The terminal state of a job and the idle manager, before the next promotion.
unfoldable pub close_job : TrainingJob → RunEnd (Option Summary) → Trainer → Trainer
unfolding error_of summary_of terminal_state some_or
close_job job end m =
    let state = terminal_state (error_of end) (summary_of end) m.stopping in
    let entry : TrainingEntry = record { job = job; state = state; error = error_of end } in
    record m {
      error = some_or (error_of end) m.error;
      history = take training_history_limit (entry ∷ m.history);
      result = some_or (summary_of end) m.result;
      running = false;
      current_job = none;
    }

-- The `finally` block of `_run`.
unfoldable pub finish_job :
    TrainingJob → RunEnd (Option Summary) → Trainer → Trainer × Option TrainingJob
unfolding close_job promote_next
finish_job job end m = promote_next (close_job job end m)
