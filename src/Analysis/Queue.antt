-- ===== src/Analysis/Queue.antt =====
-- `AnalysisManager` (compute/analysis/runner.py): the pending queue, the running job and the history.
-- Each method is one hold of the lock. A method that prepares a thread returns its job.
use Prim.Native.String.{String}
use cat_automation.Prelude.{
  ℕ, ◌+◌, Bool, true, false, Option, none, some, List, [], ◌∷◌, ◌++◌, ◌==◌, length, take,
  if◌then◌else◌,
}
use cat_automation.Analysis.Job.{Job, same_key}

abbrev pub history_limit : ℕ
history_limit = 20

pub data Outcome : Type 0 where
  failed canceled done : Outcome

pub record HistoryEntry : Type 0 where
  pub kind : String
  pub since_id : Option ℕ
  pub until_id : Option ℕ
  pub state : Outcome
  pub error : Option String
  pub done : ℕ
  pub present : ℕ

-- `stopping` is the flag of the event that `stop_event` holds at the time.
pub record Manager : Type 0 where
  pub running : Bool
  pub analyzer : Option String
  pub done : ℕ
  pub total : ℕ
  pub present : ℕ
  pub error : Option String
  pub since_id : Option ℕ
  pub until_id : Option ℕ
  pub stopping : Bool
  pub pending : List Job
  pub current_job : Option Job
  pub history : List HistoryEntry

unfoldable pub new_manager : Manager
new_manager = record {
  running = false;
  analyzer = none;
  done = 0;
  total = 0;
  present = 0;
  error = none;
  since_id = none;
  until_id = none;
  stopping = false;
  pending = [];
  current_job = none;
  history = [];
}

-- The head of the queue becomes the running job, with a fresh event.
unfoldable pub start_head : List Job → Manager → Manager × Option Job
start_head [] m = (m, none)
start_head (job ∷ pending) m = (
  record m {
    pending = pending;
    current_job = some job;
    analyzer = some job.kind;
    done = 0;
    total = 0;
    present = 0;
    error = none;
    since_id = job.since_id;
    until_id = job.until_id;
    stopping = false;
    running = true;
  },
  some job,
)

-- `_promote_locked`
unfoldable pub promote : Manager → Manager × Option Job
unfolding start_head
promote m = if m.running then (m, none) else start_head m.pending m

-- What `_enqueue` returns beside the status, and the thread that it starts.
pub record Enqueued : Type 0 where
  pub position : ℕ
  pub deduped : Bool
  pub thread : Option Job

unfoldable pub is_current : Job → Option Job → Bool
is_current job none = false
is_current job (some current) = same_key current job

-- The loop over the pending jobs: the index of the first one with the same key.
unfoldable pub index_of_key : Job → ℕ → List Job → Option ℕ
index_of_key job index [] = none
index_of_key job index (pending_job ∷ pending) =
    if same_key pending_job job then some index else index_of_key job (index + 1) pending

unfoldable pub append_pending : Job → Manager → Manager
append_pending job m = record m { pending = m.pending ++ job ∷ [] }

-- The part of `_enqueue` after both tests for a duplicate.
unfoldable pub enqueue_new : Job → Manager → Manager × Enqueued
unfolding append_pending promote
enqueue_new job m =
    let m' = append_pending job m in
    let (promoted, thread) = promote m' in
    if m.running
    then (m', record { position = length m'.pending; deduped = false; thread = none })
    else (promoted, record { position = 0; deduped = false; thread = thread })

unfoldable pub enqueue_or_find : Option ℕ → Job → Manager → Manager × Enqueued
unfolding enqueue_new
enqueue_or_find (some index) job m =
    (m, record { position = index + 1; deduped = true; thread = none })
enqueue_or_find none job m = enqueue_new job m

-- `_enqueue`
unfoldable pub enqueue : Job → Manager → Manager × Enqueued
unfolding is_current index_of_key enqueue_or_find
enqueue job m =
    let duplicate_of_current = if m.running then is_current job m.current_job else false in
    if duplicate_of_current
    then (m, record { position = 0; deduped = true; thread = none })
    else enqueue_or_find (index_of_key job 0 m.pending) job m

unfoldable pub cancel : Manager → Manager
cancel m = if m.running then record m { stopping = true } else m

-- `deque.remove` of the first pending job with the id.
unfoldable pub remove_job : ℕ → List Job → List Job
remove_job job_id [] = []
remove_job job_id (job ∷ pending) =
    if job.job_id == job_id then pending else job ∷ remove_job job_id pending

unfoldable pub has_job_id : ℕ → Option Job → Bool
has_job_id job_id none = false
has_job_id job_id (some job) = job.job_id == job_id

unfoldable pub cancel_job : ℕ → Manager → Manager
unfolding remove_job has_job_id
cancel_job job_id m =
    if (if m.running then has_job_id job_id m.current_job else false)
    then record m { stopping = true }
    else record m { pending = remove_job job_id m.pending }

unfoldable pub clear_pending : Manager → Manager
clear_pending m = record m { pending = [] }

unfoldable pub stop_all : Manager → Manager
stop_all m =
    let cleared : Manager = record m { pending = [] } in
    if m.running then record cleared { stopping = true } else cleared

unfoldable pub outcome : Option String → Bool → Outcome
outcome (some error) stopping = failed
outcome none true = canceled
outcome none false = Outcome.done

unfoldable pub surface_error : Option String → Manager → Manager
surface_error none m = m
surface_error (some error) m = record m { error = some error }

unfoldable pub history_entry : Job → Option String → Manager → HistoryEntry
unfolding outcome
history_entry job error m = record {
  kind = job.kind;
  since_id = job.since_id;
  until_id = job.until_id;
  state = outcome error m.stopping;
  error = error;
  done = m.done;
  present = m.present;
}

-- The terminal state of a job and the idle manager, before the next promotion.
unfoldable pub record_outcome : Job → Option String → Manager → Manager
unfolding surface_error history_entry
record_outcome job error m = record (surface_error error m) {
  history = take history_limit (history_entry job error m ∷ m.history);
  running = false;
  current_job = none;
}

-- The `finally` block of `_run`, for a sweep that ended with `error` or with none.
unfoldable pub finish : Job → Option String → Manager → Manager × Option Job
unfolding record_outcome promote
finish job error m = promote (record_outcome job error m)

unfoldable pub set_total : ℕ → Manager → Manager
set_total total m = record m { total = total }

-- `record`
unfoldable pub record_verdict : Bool → Manager → Manager
record_verdict present m = record m {
  done = m.done + 1;
  present = if present then m.present + 1 else m.present;
}
