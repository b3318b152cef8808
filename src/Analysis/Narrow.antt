-- ===== src/Analysis/Narrow.antt =====
-- The methods of `AnalysisManager` (compute/analysis/runner.py) that start no thread, and the jobs in
-- the line.
use cat_automation.Prelude.{
  ℕ, ◌≡◌, refl, inl, inr, Bool, true, false, Option, none, some, List, [], ◌∷◌, ◌==◌, if◌then◌else◌,
  Bool-cases, arith,
}
use cat_automation.Analysis.Job.{Job}
use cat_automation.Analysis.Queue.{
  Manager, cancel, remove_job, has_job_id, cancel_job, stop_all, record_verdict,
}
use cat_automation.Analysis.Enqueue.{line, queue, Unlike, Distinct}

pub remove_job-Unlike :
    (job_id : ℕ) (job : Job) (jobs : List Job)
    → Unlike job jobs
    → Unlike job (remove_job job_id jobs)
unfolding remove_job
remove_job-Unlike job_id job [] u = tt
remove_job-Unlike job_id job (j ∷ jobs) u = elim (Bool-cases (j.job_id == job_id)) [
  | inl e ↦ rw e u.1
  | inr e ↦ rw e (u.0, remove_job-Unlike job_id job jobs u.1)
]

pub remove_job-Distinct :
    (job_id : ℕ) (jobs : List Job) → Distinct jobs → Distinct (remove_job job_id jobs)
unfolding remove_job
remove_job-Distinct job_id [] d = tt
remove_job-Distinct job_id (j ∷ jobs) d = elim (Bool-cases (j.job_id == job_id)) [
  | inl e ↦ rw e d.1
  | inr e ↦ rw e (remove_job-Unlike job_id j jobs d.0, remove_job-Distinct job_id jobs d.1)
]

pub line-remove_job-Distinct :
    (job_id : ℕ) (current : Option Job) (jobs : List Job)
    → Distinct (line current jobs)
    → Distinct (line current (remove_job job_id jobs))
unfolding line
line-remove_job-Distinct job_id none jobs d = remove_job-Distinct job_id jobs d
line-remove_job-Distinct job_id (some job) jobs d =
    (remove_job-Unlike job_id job jobs d.0, remove_job-Distinct job_id jobs d.1)

pub line_nil-Distinct :
    (current : Option Job) (jobs : List Job)
    → Distinct (line current jobs)
    → Distinct (line current [])
unfolding line
line_nil-Distinct none jobs d = tt
line_nil-Distinct (some job) jobs d = (tt, tt)

-- What a request that starts no thread changes: at most it takes jobs out of the queue.
pub record Narrowed (m m' : Manager) : Type 0 where
  pub running : m'.running ≡ m.running
  pub current : m'.current_job ≡ m.current_job
  pub history : m'.history ≡ m.history
  pub empty : m.pending ≡ [] → m'.pending ≡ []
  pub distinct : Distinct (queue m) → Distinct (queue m')

pub cancel-Narrowed : (m : Manager) → Narrowed m (cancel m)
unfolding cancel
cancel-Narrowed m = split m.running
  where
    split : (b : Bool) → Narrowed m (if b then record m { stopping = true } else m)
    split true = record {
      running = refl;
      current = refl;
      history = refl;
      empty = λ h. h;
      distinct = λ d. d;
    }
    split false = record {
      running = refl;
      current = refl;
      history = refl;
      empty = λ h. h;
      distinct = λ d. d;
    }

pub cancel_job-Narrowed : (job_id : ℕ) (m : Manager) → Narrowed m (cancel_job job_id m)
unfolding cancel_job
cancel_job-Narrowed job_id m = split (if m.running then has_job_id job_id m.current_job else false)
  where
    split :
        (b : Bool)
        → Narrowed m (
            if b
            then record m { stopping = true }
            else record m { pending = remove_job job_id m.pending })
    split true = record {
      running = refl;
      current = refl;
      history = refl;
      empty = λ h. h;
      distinct = λ d. d;
    }
    split false = record {
      running = refl;
      current = refl;
      history = refl;
      empty = λ h. ground (arith, h);
      distinct = line-remove_job-Distinct job_id m.current_job m.pending;
    }

pub stop_all-Narrowed : (m : Manager) → Narrowed m (stop_all m)
unfolding stop_all
stop_all-Narrowed m = split m.running
  where
    cleared : Manager
    cleared = record m { pending = [] }

    split : (b : Bool) → Narrowed m (if b then record cleared { stopping = true } else cleared)
    split true = record {
      running = refl;
      current = refl;
      history = refl;
      empty = λ h. refl;
      distinct = line_nil-Distinct m.current_job m.pending;
    }
    split false = record {
      running = refl;
      current = refl;
      history = refl;
      empty = λ h. refl;
      distinct = line_nil-Distinct m.current_job m.pending;
    }

pub record_verdict-Narrowed : (present : Bool) (m : Manager) → Narrowed m (record_verdict present m)
unfolding record_verdict
record_verdict-Narrowed present m = record {
  running = refl;
  current = refl;
  history = refl;
  empty = λ h. h;
  distinct = λ d. d;
}
