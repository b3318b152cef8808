-- ===== src/Analysis/Enqueue.antt =====
-- What `AnalysisManager._enqueue` (compute/analysis/runner.py) does with a job, and where it says
-- that the job stands.
use cat_automation.Prelude.{
  ℕ, suc, ◌+◌, ◌≡◌, refl, inl, inr, Bool, true, false, Option, none, some, List, [], ◌∷◌, ◌++◌, All,
  length, length-append, get_elem?, ◌⊎◌, Bool-cases, Option-cases, arith,
}
use cat_automation.Analysis.Job.{Job, same_key}
use cat_automation.Analysis.Queue.{Manager, start_head, Enqueued, index_of_key, enqueue}
use cat_automation.Analysis.World.{with_thread}

-- The running job and then the pending ones.
unfoldable pub line : Option Job → List Job → List Job
line none pending = pending
line (some job) pending = job ∷ pending

abbrev pub queue : Manager → List Job
queue m = line m.current_job m.pending

-- No two jobs in the line have the same key.
abbrev pub Unlike : Job → List Job → Type 0
Unlike job jobs = All (λ j. same_key job j ≡ false) jobs

abbrev pub Distinct : List Job → Type 0
Distinct [] = Unit
Distinct (job ∷ jobs) = Unlike job jobs × Distinct jobs

abbrev pub is_running : Option Job → Bool
is_running none = false
is_running (some job) = true

-- Where `_enqueue` finds a job with the same key: nothing changes, and the position that it returns
-- is that of this job in the line.
pub record Deduped (job : Job) (m m' : Manager) (e : Enqueued) : Type 0 where
  pub unchanged : m' ≡ m
  pub no_thread : e.thread ≡ none
  pub twin : Job
  pub at_position : get_elem? (queue m) e.position ≡ some twin
  pub same : same_key twin job ≡ true

-- Where it does not: the job goes to the end of the line, and its position counts the jobs before
-- it. It is started at once if there are none, and else no thread is.
pub record Queued (job : Job) (m m' : Manager) (e : Enqueued) : Type 0 where
  pub appended : queue m' ≡ queue m ++ job ∷ []
  pub position : e.position ≡ length (queue m)
  pub new : All (λ j. same_key j job ≡ false) (queue m)
  pub started : line m'.current_job [] ≡ with_thread e.thread (line m.current_job [])
  pub flag : m'.running ≡ true
  pub busy : is_running m'.current_job ≡ true
  pub history : m'.history ≡ m.history

-- What the lock guards, apart from the worker threads.
pub record IsOrderly (m : Manager) : Type 0 where
  pub flag : m.running ≡ is_running m.current_job
  pub idle_empty : m.running ≡ false → m.pending ≡ []

index_of_key-some :
    (job : Job) (index : ℕ) (pending : List Job) {i : ℕ}
    → index_of_key job index pending ≡ some i
    → (d : ℕ) × (i ≡ index + d)
      × (twin : Job) × (get_elem? pending d ≡ some twin)
      × (same_key twin job ≡ true)
unfolding index_of_key
index_of_key-some job index [] h = cc
index_of_key-some job index (p ∷ pending) h = elim (Bool-cases (same_key p job)) [
  | inl same ↦ (0, ground (arith, h, same), p, refl, same)
  | inr other ↦
      let rest = rw other at h in
      let (d, e, twin, at, same) = index_of_key-some job (index + 1) pending rest in
      (suc d, omega (arith, e), twin, at, same)
]

index_of_key-none :
    (job : Job) (index : ℕ) (pending : List Job)
    → index_of_key job index pending ≡ none
    → All (λ j. same_key j job ≡ false) pending
unfolding index_of_key
index_of_key-none job index [] h = tt
index_of_key-none job index (p ∷ pending) h = elim (Bool-cases (same_key p job)) [
  | inl same ↦ ground (arith, h, same)
  | inr other ↦ (other, index_of_key-none job (index + 1) pending (rw other at h))
]

enqueue_idle :
    (job : Job) (m : Manager)
    → m.running ≡ false
    → m.pending ≡ []
    → m.current_job ≡ none
    → let (m', e) = enqueue job m in Queued job m m' e × (e.deduped ≡ false)
unfolding enqueue start_head line with_thread
enqueue_idle job m r p c = (
  record {
    appended = ground (arith, r, p, c);
    position = ground (arith, r, p, c);
    new = rw (c, p) tt;
    started = ground (arith, r, p, c);
    flag = ground (arith, r, p, c);
    busy = ground (arith, r, p, c);
    history = ground (arith, r, p, c);
  },
  ground (arith, r, p, c),
)

-- The case of a running job with another key, by what the loop over the pending jobs finds.
enqueue_busy :
    (job current : Job) (m : Manager)
    → m.running ≡ true
    → m.current_job ≡ some current
    → same_key current job ≡ false
    → let (m', e) = enqueue job m in
      Deduped job m m' e × (e.deduped ≡ true) ⊎ Queued job m m' e × (e.deduped ≡ false)
unfolding enqueue line with_thread
enqueue_busy job current m r c other = elim (Option-cases (index_of_key job 0 m.pending)) [
  | inl absent ↦ inr (
    record {
      appended = ground (arith, r, c, other, absent);
      position = ground (arith, r, c, other, absent, length-append m.pending (job ∷ []));
      new = rw c (other, index_of_key-none job 0 m.pending absent);
      started = ground (arith, r, c, other, absent);
      flag = ground (arith, r, c, other, absent);
      busy = ground (arith, r, c, other, absent);
      history = ground (arith, r, c, other, absent);
    },
    ground (arith, r, c, other, absent),
  )
  | inr (i, found) ↦
      let (d, e, twin, at, same) = index_of_key-some job 0 m.pending found in
      let here : i ≡ d = omega (arith, e) in
      inl (
        record {
          unchanged = ground (arith, r, c, other, found);
          no_thread = ground (arith, r, c, other, found);
          twin = twin;
          at_position = ground (arith, r, c, other, found, here, at);
          same = same;
        },
        ground (arith, r, c, other, found),
      )
]

-- Where the running flag says whether there is a running job, and no job waits without one:
-- `_enqueue` drops the job onto a twin in the line, with no change and its position, or puts it
-- at the line's end, where it has no twin, and starts it if the line was empty.
pub enqueue_lem :
    (job : Job) (m : Manager)
    → IsOrderly m
    → let (m', e) = enqueue job m in
      Deduped job m m' e × (e.deduped ≡ true) ⊎ Queued job m m' e × (e.deduped ≡ false)
unfolding enqueue line
enqueue_lem job m o = elim (Option-cases m.current_job) [
  | inl idle ↦
      let stopped : m.running ≡ false = ground (arith, o.flag, idle) in
      inr (enqueue_idle job m stopped (o.idle_empty stopped) idle)
  | inr (current, busy) ↦
      let active : m.running ≡ true = ground (arith, o.flag, busy) in
      elim (Bool-cases (same_key current job)) [
        | inl twin ↦ inl (
          record {
            unchanged = ground (arith, active, busy, twin);
            no_thread = ground (arith, active, busy, twin);
            twin = current;
            at_position = ground (arith, active, busy, twin);
            same = twin;
          },
          ground (arith, active, busy, twin),
        )
        | inr other ↦ enqueue_busy job current m active busy other
      ]
]
