-- ===== src/Analysis/Drain.antt =====
-- How the queue of `AnalysisManager` (compute/analysis/runner.py) empties, and what a cancellation
-- strikes.
use Prim.Native.String.{String}
use cat_automation.Prelude.{
  suc, ◌≡◌, refl, ap, true, false, Option, none, some, List, [], ◌∷◌, length, arith,
}
use cat_automation.Analysis.Job.{Job}
use cat_automation.Analysis.Queue.{Outcome, HistoryEntry, Manager, start_head, cancel, finish}
use cat_automation.Analysis.Enqueue.{line, queue}

-- The sweeps end one after the other, with these errors, and nobody asks for anything meanwhile.
-- The jobs come in the order in which they end.
drain_from : List (Option String) → Option Job → Manager → Manager × List Job
drain_from [] current m = (m, [])
drain_from (error ∷ errors) none m = (m, [])
drain_from (error ∷ errors) (some job) m =
    let m' = (finish job error m).0 in
    let (end, jobs) = drain_from errors m'.current_job m' in (end, job ∷ jobs)

pub drain : List (Option String) → Manager → Manager × List Job
drain errors m = drain_from errors m.current_job m

finish_last :
    (job : Job) (error : Option String) (m : Manager)
    → m.pending ≡ []
    → let m' = (finish job error m).0 in
      (m'.current_job ≡ none) × (m'.pending ≡ []) × (m'.running ≡ false)
unfolding finish start_head
finish_last job none m p = ground (arith, p)
finish_last job (some error) m p = ground (arith, p)

finish_next :
    (job : Job) (error : Option String) (m : Manager) (next : Job) (pending : List Job)
    → m.pending ≡ next ∷ pending
    → let m' = (finish job error m).0 in (m'.current_job ≡ some next) × (m'.pending ≡ pending)
unfolding finish start_head
finish_next job none m next pending p = ground (arith, p)
finish_next job (some error) m next pending p = ground (arith, p)

drain_from_lem :
    (errors : List (Option String)) (job : Job) (pending : List Job) (m : Manager)
    → m.pending ≡ pending
    → length errors ≡ suc (length pending)
    → let (end, jobs) = drain_from errors (some job) m in
      (jobs ≡ job ∷ pending) × (end.running ≡ false) × (end.current_job ≡ none) × (end.pending ≡ [])
unfolding drain_from
drain_from_lem [] job pending m p n = absurd (omega (arith, n))
drain_from_lem (error ∷ []) job [] m p n =
    let (c, q, r) = finish_last job error m p in (refl, r, c, q)
drain_from_lem (error ∷ e ∷ errors) job [] m p n = absurd (omega (arith, n))
drain_from_lem (error ∷ errors) job (next ∷ pending) m p n =
    let m' = (finish job error m).0 in
    let (c, q) = finish_next job error m next pending p in
    let (jobs, r, c', q') = drain_from_lem errors next pending m' q (omega (arith, n)) in
    rw c (ap (λ l. job ∷ l) jobs, r, c', q')

-- With a running job, as many ends of sweeps as there are jobs in the line empty it, whether the
-- sweeps fail or not: the jobs end in the order of the line, and the manager is idle.
pub drain_lem :
    (errors : List (Option String)) (job : Job) (m : Manager)
    → m.current_job ≡ some job
    → length errors ≡ length (queue m)
    → let (end, jobs) = drain errors m in
      (jobs ≡ queue m) × (end.running ≡ false) × (end.current_job ≡ none) × (end.pending ≡ [])
unfolding drain line
drain_lem errors job m c n =
    simp c (drain_from_lem errors job m.pending m refl (ground (arith, c, n)))

-- The state of the newest entry of the history.
pub newest_state : List HistoryEntry → Option Outcome
newest_state [] = none
newest_state (entry ∷ history) = some entry.state

-- While a job runs, a sweep that ends without an error after `cancel` is recorded as canceled,
-- and a job that is promoted then starts with a clear flag.
finish-cancel :
    (job : Job) (m : Manager)
    → m.running ≡ true
    → let m' = (finish job none (cancel m)).0 in
      (newest_state m'.history ≡ some Outcome.canceled) × (m'.running ≡ true → m'.stopping ≡ false)
unfolding finish start_head cancel newest_state
finish-cancel job m r = (ground (arith, r), λ h. ground (arith, r, h))
