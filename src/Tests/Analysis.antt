-- ===== src/Tests/Analysis.antt =====
-- The analysis queue (compute/analysis/runner.py) with a sweep that runs and one that waits.
use Prim.Native.String.{String}
use cat_automation.Prelude.{ℕ, ◌≡◌, refl, ◌⊎◌, true, false, none, some, [], ◌∷◌, ◌++◌}
use cat_automation.Analysis.Job.{Job, same_key, job_category}
use cat_automation.Analysis.Queue.{new_manager, enqueue}
use cat_automation.Analysis.World.{
  World, enqueued, Reach, begin, next, asks, ends, new_world, request, end_sweep,
}
use cat_automation.Analysis.Enqueue.{line, queue, IsOrderly, Deduped, Queued, enqueue_lem}
use cat_automation.Analysis.Serial.{IsSerial, Reach-IsSerial}
use cat_automation.Analysis.Drain.{drain, drain_lem}

abbrev job : String → ℕ → Job
job kind job_id = record {
  kind = kind;
  reanalyze = false;
  since_id = none;
  until_id = some 100;
  params = none;
  motion_only = false;
  job_id = job_id;
  category = job_category kind;
  since_ts = none;
  total = none;
}

-- The world after three requests, of which the last one is a duplicate.
abbrev busy : World
busy =
    request (enqueued (job "lighting" 3))
      (request (enqueued (job "lighting" 2)) (request (enqueued (job "mog2:a" 1)) new_world))

busy_queue : queue busy.manager ≡ job "mog2:a" 1 ∷ job "lighting" 2 ∷ []
unfolding request new_world line enqueue new_manager same_key
busy_queue = refl

abbrev busy-Reach : Reach busy
busy-Reach =
    next
      (next (next begin (asks (enqueued (job "mog2:a" 1)) new_world))
        (asks (enqueued (job "lighting" 2)) (request (enqueued (job "mog2:a" 1)) new_world)))
      (asks (enqueued (job "lighting" 3))
        (request (enqueued (job "lighting" 2)) (request (enqueued (job "mog2:a" 1)) new_world)))

busy_workers : busy.workers ≡ [] ++ job "mog2:a" 1 ∷ []
unfolding request new_world enqueue new_manager same_key
busy_workers = refl

Reach-IsSerial_example : IsSerial (end_sweep (job "mog2:a" 1) none [] busy.manager)
Reach-IsSerial_example =
    Reach-IsSerial (next busy-Reach (ends [] [] (job "mog2:a" 1) none busy busy_workers))

abbrev busy-IsOrderly : IsOrderly busy.manager
unfolding request new_world enqueue new_manager same_key
busy-IsOrderly = record { flag = refl; idle_empty = λ e. cc }

enqueue_lem_example :
    let (m, e) = enqueue (job "lighting" 4) busy.manager in
    Deduped (job "lighting" 4) busy.manager m e × (e.deduped ≡ true)
    ⊎ Queued (job "lighting" 4) busy.manager m e × (e.deduped ≡ false)
enqueue_lem_example = enqueue_lem (job "lighting" 4) busy.manager busy-IsOrderly

drain_lem_example :
    let (end, jobs) = drain (some "disk full" ∷ none ∷ []) busy.manager in
    (jobs ≡ queue busy.manager)
    × (end.running ≡ false)
    × (end.current_job ≡ none)
    × (end.pending ≡ [])
drain_lem_example =
    drain_lem (some "disk full" ∷ none ∷ []) (job "mog2:a" 1) busy.manager
      (unfold request new_world enqueue new_manager same_key in refl)
      (unfold line request new_world enqueue new_manager same_key in refl)
