-- ===== src/Tests/Store.antt =====
-- A store (compute/collection/store.py) of three frames under a cap that holds two of them.
use cat_automation.Store.Tables.{sum_bytes, sum_motion}
use cat_automation.Store.Evict.{evict_loop, advance_frontier}
use cat_automation.Spans.MotionOnly.{at_id_le}
use cat_automation.Spans.Coverage.{mode_at}
use cat_automation.Store.Mode.{record_mode_change, record_mode_change-mode_at}
use cat_automation.Prelude.{
  ltb, sort_by, if◌then◌else◌, ◌*◌, map, ℕ, suc, ◌≤◌, ◌≡◌, refl, ◌⊎◌, Bool, true, false, none, some,
  List, [], ◌∷◌, arith,
}
use cat_automation.Store.Tables.{
  Stage, tuning, collecting, Frame, Store, max_id, stage_keeps_all_frames,
}
use cat_automation.Store.Delete.{delete_frame}
use cat_automation.Store.Rows.{find}
use cat_automation.Store.Evict.{evict}
use cat_automation.Store.Counted.{IsCounted}
use cat_automation.Store.Oldest.{drop_over, evict_oldest}
use cat_automation.Store.Preferred.{evict_prefers_nonmotion}
use cat_automation.Store.Sparing.{motion_frames, nonmotion_frames}
use cat_automation.Store.Untouched.{Untouched}
use cat_automation.Store.Add.{Capture, evict_error, add}
use cat_automation.Store.Atomic.{IsConsistent, add_succeeds, add_fails}

abbrev pub frame : ℕ → Bool → Frame
frame id motion = record {
  id = id;
  path = record { recv_ts = 1000 * id; frame_id = id };
  motion = motion;
  n_bytes = 10;
}

abbrev pub frames : List Frame
frames = frame 1 true ∷ frame 2 false ∷ frame 3 true ∷ []

abbrev pub store : Stage → ℕ → Store
store stage max_bytes = record {
  db = record {
    frames = frames;
    analysis = 2 ∷ 3 ∷ [];
    identifications = 2 ∷ [];
    calendar_days = [];
    groups = [];
    label_flags = [];
    mode_changes = [];
    purge_spans = [];
    nonmotion_evicted = 0;
  };
  files = map (λ f. f.path) frames;
  max_bytes = max_bytes;
  total_bytes = 30;
  count = 3;
  motion_count = 2;
  stage = stage;
  nonmotion_evicted_through = 0;
}

abbrev pub store-IsCounted : (stage : Stage) (max_bytes : ℕ) → IsCounted (store stage max_bytes)
unfolding sum_bytes sum_motion
store-IsCounted stage max_bytes = record {
  ascend = (omega arith, (omega arith, tt));
  bytes = refl;
  rows = refl;
  motion = refl;
}

abbrev pub store-IsConsistent :
    (stage : Stage) (max_bytes : ℕ) → IsConsistent (store stage max_bytes)
store-IsConsistent stage max_bytes = record {
  counted = store-IsCounted stage max_bytes;
  frontier = refl;
}

-- A cap of 20 bytes costs the non-motion frame, and moves the frontier to it.
evict_collecting :
    ((evict (store collecting 20)).db.frames ≡ frame 1 true ∷ frame 3 true ∷ [])
    × ((evict (store collecting 20)).nonmotion_evicted_through ≡ 2)
unfolding evict evict_loop advance_frontier stage_keeps_all_frames delete_frame
evict_collecting = (refl, refl)

evict_oldest_example :
    ((evict (store tuning 15)).db.frames ≡ drop_over 15 30 frames)
    × ((evict (store tuning 15)).nonmotion_evicted_through ≡ 0)
evict_oldest_example =
    evict_oldest (store tuning 15) (unfold stage_keeps_all_frames in refl)
      (store-IsCounted tuning 15)

evict_prefers_nonmotion_example :
    ((nonmotion_frames (evict (store collecting 20)).db.frames ≡ [])
      ⊎ (motion_frames (evict (store collecting 20)).db.frames ≡ motion_frames frames))
    × ((i : ℕ) (r : Frame)
        → find i frames ≡ some r
        → r.motion ≡ false
        → find i (evict (store collecting 20)).db.frames ≡ none
        → i ≤ (evict (store collecting 20)).nonmotion_evicted_through)
evict_prefers_nonmotion_example =
    evict_prefers_nonmotion (store collecting 20) (unfold stage_keeps_all_frames in refl)
      (store-IsCounted collecting 20)

abbrev capture : Capture
capture = record { frame_id = 4; recv_ts = 4000; motion = false; n_bytes = 10 }

add_succeeds_example :
    let (t, new_id) = add none capture (store collecting 30) in
    IsConsistent t
    × (t.total_bytes ≤ t.max_bytes)
    × (new_id ≡ some (suc (max_id frames)))
    × Untouched (store collecting 30) t
add_succeeds_example = add_succeeds capture (store collecting 30) (store-IsConsistent collecting 30)

add_fails_example :
    let s = store collecting 15 in
    add (some (evict_error 1)) capture s
    ≡ (record s { files = (add (some (evict_error 1)) capture s).0.files }, none)
add_fails_example =
    add_fails (evict_error 1) capture (store collecting 15) (store-IsConsistent collecting 15)

-- Motion-only capture was on from frame 1 to frame 2.
abbrev toggled : Store
toggled =
    let s = store tuning 30 in
    record s {
      db = record (s.db) {
        mode_changes =
            record { at_id = 1; motion_only = true }
            ∷ record { at_id = 2; motion_only = false }
            ∷ [];
      };
    }

toggled_at_two : mode_at false (sort_by at_id_le toggled.db.mode_changes) 2 ≡ true
unfolding mode_at
toggled_at_two = refl

record_mode_change-mode_at_example :
    mode_at false (sort_by at_id_le (record_mode_change true toggled).db.mode_changes) 2 ≡ (
      if ltb (max_id frames) 2
      then true
      else mode_at false (sort_by at_id_le toggled.db.mode_changes) 2)
record_mode_change-mode_at_example =
    record_mode_change-mode_at true toggled 2 (refl, tt)
      (unfold max_id in (omega arith, (omega arith, tt)))
