-- ===== src/Collector/Run.antt =====
-- `run_collector` (compute/collection/collector.py). The stream is the sequence of its frames. What the callers
-- do lands while the run waits for a frame, and no other run overlaps. Log lines are left out.
use cat_automation.Prelude.{
  ℕ, suc, ◌%◌, ◌==◌, Bool, true, false, Option, none, some, List, [], ◌∷◌, ◌&&◌, not, if◌then◌else◌,
}
use cat_automation.Store.Tables.{Store}
use cat_automation.Store.Mode.{record_mode_change}
use cat_automation.Store.Add.{Capture, Fault, add}
use cat_automation.Collector.Manager.{Shared, Call, is_stopped, answer_all}

abbrev pub log_every : ℕ
log_every = 500

-- A frame with the receive time that it gets, the calls that land before it, the write that raises, and
-- whether `store.stats()` raises if it is asked for after the frame.
pub record Arrival : Type 0 where
  pub calls : List Call
  pub capture : Capture
  pub fault : Option Fault
  pub stats_raise : Bool

-- The counters of the run, and whether an exception has ended it.
pub record Collecting : Type 0 where
  pub shared : Shared
  pub saved : ℕ
  pub errors : ℕ
  pub raised : Bool

-- The count that `store.add` adds one to. Every `log_every` saved frames, `store.stats()` is read.
unfoldable pub count_result : Bool → Store × Option ℕ → Collecting → Collecting
count_result stats_raise (t, none) c = record {
  shared = record (c.shared) { store = t };
  saved = c.saved;
  errors = suc c.errors;
  raised = false;
}
count_result stats_raise (t, some new_id) c = record {
  shared = record (c.shared) { store = t };
  saved = suc c.saved;
  errors = c.errors;
  raised = suc c.saved % log_every == 0 && stats_raise;
}

-- The loop's body after the stop check.
unfoldable pub take_frame : Arrival → Collecting → Collecting
unfolding count_result
take_frame a c =
    if c.shared.manager.motion_only && not a.capture.motion
    then c
    else count_result a.stats_raise (add a.fault a.capture c.shared.store) c

unfoldable pub collect : ℕ → List Arrival → Collecting → Collecting
unfolding take_frame answer_all is_stopped
collect event [] c = c
collect event (a ∷ arrivals) c =
    let c' : Collecting = record c { shared = answer_all a.calls c.shared } in
    let taken = take_frame a c' in
    let rest = collect event arrivals taken in
    if is_stopped event c'.shared.manager then c' else if taken.raised then taken else rest

-- `record_raises` says whether the first `record_mode_change` raises, which ends the run.
unfoldable pub run_collector : Bool → ℕ → List Arrival → Shared → Collecting
unfolding collect record_mode_change
run_collector record_raises event arrivals w =
    let begun : Collecting = record {
      shared = record w { store = record_mode_change w.manager.motion_only w.store };
      saved = 0;
      errors = 0;
      raised = false;
    } in
    let rest = collect event arrivals begun in
    if record_raises then record { shared = w; saved = 0; errors = 0; raised = true } else rest
