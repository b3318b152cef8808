-- ===== src/Analysis/Serial.antt =====
-- The threads, the line and the history of `AnalysisManager` (compute/analysis/runner.py) under its
-- callers and workers.
use cat_automation.Analysis.Narrow.{
  line_nil-Distinct, Narrowed, cancel-Narrowed, cancel_job-Narrowed, stop_all-Narrowed,
  record_verdict-Narrowed,
}
use Prim.Native.String.{String}
use cat_automation.Prelude.{
  ◌≤◌, ◌≡◌, refl, sym, ap, ◌∙◌, inl, inr, false, Option, none, some, List, [], ◌∷◌, ◌++◌, All,
  All-append, length, length-take-le, arith,
}
use cat_automation.Analysis.Job.{Job, same_key}
use cat_automation.Analysis.Queue.{
  history_limit, Manager, new_manager, start_head, promote, enqueue, cancel, cancel_job, stop_all,
  record_outcome, history_entry, finish, record_verdict,
}
use cat_automation.Analysis.Enqueue.{line, queue, Distinct, is_running, IsOrderly, enqueue_lem}
use cat_automation.Analysis.World.{
  World, with_thread, enqueued, canceled, canceled_job, cleared, stopped_all, counted, recorded,
  request, end_sweep, Step, asks, ends, new_world, Reach, begin, next,
}

pub record IsSerial (w : World) : Type 0 where
  pub one_worker : w.workers ≡ line w.manager.current_job []
  pub flag : w.manager.running ≡ is_running w.manager.current_job
  pub idle_empty : w.manager.running ≡ false → w.manager.pending ≡ []
  pub distinct : Distinct (queue w.manager)
  pub history_bounded : length w.manager.history ≤ history_limit

start_head-IsSerial :
    (pending : List Job) (m : Manager)
    → m.current_job ≡ none
    → m.running ≡ false
    → m.pending ≡ pending
    → Distinct pending
    → length m.history ≤ history_limit
    → let (m', thread) = start_head pending m in
      IsSerial (record { manager = m'; workers = with_thread thread [] })
unfolding start_head with_thread line
start_head-IsSerial [] m c r p d h = ground (arith, c, r, p)
start_head-IsSerial (job ∷ pending) m c r p d h = record {
  one_worker = refl;
  flag = refl;
  idle_empty = λ e. cc;
  distinct = d;
  history_bounded = h;
}

Distinct-append :
    (job : Job) (jobs : List Job)
    → Distinct jobs
    → All (λ j. same_key j job ≡ false) jobs
    → Distinct (jobs ++ job ∷ [])
Distinct-append job [] d n = (tt, tt)
Distinct-append job (j ∷ jobs) d n = (
  All-append (λ k. same_key j k ≡ false) jobs (job ∷ []) d.0 (n.0, tt),
  Distinct-append job jobs d.1 n.1,
)

Distinct-pending :
    (current : Option Job) (pending : List Job) → Distinct (line current pending) → Distinct pending
unfolding line
Distinct-pending none pending d = d
Distinct-pending (some job) pending d = d.1

enqueue-IsSerial : (job : Job) (w : World) → IsSerial w → IsSerial (request (enqueued job) w)
unfolding request
enqueue-IsSerial job w s =
    let (m', e) = enqueue job w.manager in
    let orderly : IsOrderly w.manager = record { flag = s.flag; idle_empty = s.idle_empty } in
    elim (enqueue_lem job w.manager orderly) [
      | inl (d, _) ↦ rw (d.unchanged, d.no_thread) s
      | inr (q, _) ↦ record {
        one_worker = ap (λ l. with_thread e.thread l) s.one_worker ∙ sym q.started;
        flag = q.flag ∙ sym q.busy;
        idle_empty = λ h. cc (q.flag);
        distinct = rw q.appended (Distinct-append job (queue w.manager) s.distinct q.new);
        history_bounded = rw q.history s.history_bounded;
      }
    ]

only_worker :
    (before after : List Job) (job current : Job)
    → current ∷ [] ≡ before ++ job ∷ after
    → (before ≡ []) × (after ≡ []) × (job ≡ current)
only_worker [] after job current h = (refl, cc, cc)
only_worker (b ∷ []) after job current h = cc
only_worker (b ∷ c ∷ before) after job current h = cc

finish-IsSerial :
    (job : Job) (error : Option String) (m : Manager)
    → Distinct m.pending
    → IsSerial (end_sweep job error [] m)
unfolding end_sweep finish promote
finish-IsSerial job none m d =
    start_head-IsSerial m.pending (record_outcome job none m) refl refl refl d
      (length-take-le history_limit (history_entry job none m ∷ m.history))
finish-IsSerial job (some error) m d =
    start_head-IsSerial m.pending (record_outcome job (some error) m) refl refl refl d
      (length-take-le history_limit (history_entry job (some error) m ∷ m.history))

Narrowed-IsSerial :
    (m : Manager) (w : World)
    → Narrowed w.manager m
    → IsSerial w
    → IsSerial (record w { manager = m })
Narrowed-IsSerial m w n s = record {
  one_worker = s.one_worker ∙ ap (λ j. line j []) (sym n.current);
  flag = ground (arith, n.running, n.current, s.flag);
  idle_empty = λ e. n.empty (s.idle_empty (sym n.running ∙ e));
  distinct = n.distinct s.distinct;
  history_bounded = rw n.history s.history_bounded;
}

end_sweep-IsSerial :
    (workers : List Job) (current : Option Job) (before after : List Job) (job : Job)
    (error : Option String) (m : Manager)
    → workers ≡ line current []
    → workers ≡ before ++ job ∷ after
    → Distinct m.pending
    → IsSerial (end_sweep job error (before ++ after) m)
unfolding line
end_sweep-IsSerial workers none [] after job error m o e d = cc
end_sweep-IsSerial workers none (b ∷ before) after job error m o e d = cc
end_sweep-IsSerial workers (some current) before after job error m o e d =
    let (b, a, _) = only_worker before after job current (sym o ∙ e) in
    rw (b, a) (finish-IsSerial job error m d)

pub Step-IsSerial : {w v : World} → Step w v → IsSerial w → IsSerial v
unfolding request
Step-IsSerial (asks (enqueued job) w) s = enqueue-IsSerial job w s
Step-IsSerial (asks canceled w) s =
    Narrowed-IsSerial (cancel w.manager) w (cancel-Narrowed w.manager) s
Step-IsSerial (asks (canceled_job job_id) w) s =
    Narrowed-IsSerial (cancel_job job_id w.manager) w (cancel_job-Narrowed job_id w.manager) s
Step-IsSerial (asks cleared w) s = record {
  one_worker = s.one_worker;
  flag = s.flag;
  idle_empty = λ e. refl;
  distinct = line_nil-Distinct w.manager.current_job w.manager.pending s.distinct;
  history_bounded = s.history_bounded;
}
Step-IsSerial (asks stopped_all w) s =
    Narrowed-IsSerial (stop_all w.manager) w (stop_all-Narrowed w.manager) s
Step-IsSerial (asks (counted total) w) s = record {
  one_worker = s.one_worker;
  flag = s.flag;
  idle_empty = s.idle_empty;
  distinct = s.distinct;
  history_bounded = s.history_bounded;
}
Step-IsSerial (asks (recorded present) w) s =
    Narrowed-IsSerial (record_verdict present w.manager) w
      (record_verdict-Narrowed present w.manager) s
Step-IsSerial (ends before after job error w e) s =
    end_sweep-IsSerial w.workers w.manager.current_job before after job error w.manager s.one_worker
      e (Distinct-pending w.manager.current_job w.manager.pending s.distinct)

-- Whatever the callers ask and in whatever order the sweeps end: there is one worker thread, with the
-- running job, or none; no job waits while none runs; no two jobs in the line, the running one
-- included, have the same key; and the history holds at most `history_limit` entries.
pub Reach-IsSerial : {w : World} → Reach w → IsSerial w
unfolding new_world new_manager line
Reach-IsSerial begin = record {
  one_worker = refl;
  flag = refl;
  idle_empty = λ e. refl;
  distinct = tt;
  history_bounded = omega arith;
}
Reach-IsSerial (next r st) = Step-IsSerial st (Reach-IsSerial r)
