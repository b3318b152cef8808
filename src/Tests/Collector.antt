-- ===== src/Tests/Collector.antt =====
-- The collector (compute/collection/collector.py) on a store of three frames, with a toggle of the capture
-- mode and a COMMIT that fails.
use cat_automation.Prelude.{
  ℕ, ◌+◌, ◌*◌, ◌≡◌, refl, Bool, true, false, Option, none, some, List, [], ◌∷◌, filter, length,
  arith,
}
use cat_automation.Store.Tables.{tuning}
use cat_automation.Store.Mode.{record_mode_change}
use cat_automation.Store.Add.{Fault, commit_error, add}
use cat_automation.Collector.Manager.{
  Shared, Call, stops, flips, writes, new_collector, start_manager, stop_manager, is_stopped,
  flip_motion_only, write_motion_only, write_found, write_toggle, nth_toggle, drop_toggle,
  same_mode, answer, answer_all,
}
use cat_automation.Collector.Run.{Arrival, count_result, take_frame, collect, run_collector}
use cat_automation.Collector.Recorded.{passes}
use cat_automation.Collector.Quiet.{run_collector_quiet}
use cat_automation.Tests.Store.{store, store-IsConsistent}

abbrev arrival : List Call → ℕ → Bool → Option Fault → Arrival
arrival calls id motion fault = record {
  calls = calls;
  capture = record { frame_id = id; recv_ts = 1000 * id; motion = motion; n_bytes = 10 };
  fault = fault;
  stats_raise = false;
}

abbrev shared : Shared
shared = record {
  manager = start_manager (new_collector true none);
  store = store tuning 100;
  toggles = [];
}

-- The second frame is lost to the disk, the third one to the capture mode.
abbrev stream : List Arrival
stream =
    arrival [] 4 true none
    ∷ arrival [] 5 true (some commit_error)
    ∷ arrival (flips true ∷ writes 0 ∷ []) 6 false none
    ∷ arrival (stops ∷ []) 7 true none
    ∷ []

stream_counts :
    ((run_collector false 1 stream shared).saved ≡ 1)
    × ((run_collector false 1 stream shared).errors ≡ 1)
unfolding run_collector collect take_frame count_result answer_all answer flip_motion_only
    write_motion_only write_found write_toggle nth_toggle drop_toggle same_mode stop_manager
    start_manager new_collector is_stopped record_mode_change add
stream_counts = (refl, refl)

-- Two frames, of which the first cannot be stored.
abbrev two_frames : List Arrival
two_frames = arrival [] 4 true (some commit_error) ∷ arrival [] 5 false none ∷ []

run_collector_quiet_example :
    let c = run_collector false 1 two_frames shared in
    (c.shared.manager ≡ shared.manager)
    × (c.raised ≡ false)
    × (c.saved + c.errors ≡ length (filter (passes shared.manager.motion_only) two_frames))
run_collector_quiet_example =
    run_collector_quiet 1 two_frames shared (store-IsConsistent tuning 100) (omega arith) refl
      (unfold is_stopped start_manager new_collector in refl) ((refl, refl), ((refl, refl), tt))
