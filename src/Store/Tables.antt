-- ===== src/Store/Tables.antt =====
-- The state of `Store` (compute/collection/store.py). A table is the list of its rows in rowid
-- order; of the frame-keyed tables only the id columns are kept. A media path is
-- `<date>/<hour>/<recv_ts>_f<frame_id>.jpg`, where `recv_ts` gives the date and the hour.
use cat_automation.Prelude.{
  ℕ, ◌+◌, Bool, true, false, List, [], ◌∷◌, ◌==◌, ◌&&◌, max, length, if◌then◌else◌,
}
use cat_automation.Spans.Coalesce.{IdSpan}
use cat_automation.Spans.MotionOnly.{ModeChange}

pub data Stage : Type 0 where
  tuning collecting running : Stage

-- Whether the stage persists non-motion frames.
unfoldable pub stage_keeps_all_frames : Stage → Bool
stage_keeps_all_frames tuning = true
stage_keeps_all_frames _ = false

pub record MediaPath : Type 0 where
  pub recv_ts : ℕ
  pub frame_id : ℕ

abbrev pub path_eq : MediaPath → MediaPath → Bool
path_eq p q = p.recv_ts == q.recv_ts && p.frame_id == q.frame_id

pub record Frame : Type 0 where
  pub id : ℕ
  pub path : MediaPath
  pub motion : Bool
  pub n_bytes : ℕ

-- A memoised calendar day and the span of its frames.
pub record CalendarDay : Type 0 where
  pub day_ms : ℕ
  pub since_id : ℕ
  pub until_id : ℕ

pub record Db : Type 0 where
  pub frames : List Frame
  pub analysis : List ℕ
  pub identifications : List ℕ
  pub calendar_days : List CalendarDay
  pub groups : List IdSpan
  pub label_flags : List IdSpan
  pub mode_changes : List ModeChange
  pub purge_spans : List IdSpan
  pub nonmotion_evicted : ℕ

-- `db` is what the connection sees, `files` the media directory; the rest are the object's fields.
pub record Store : Type 0 where
  pub db : Db
  pub files : List MediaPath
  pub max_bytes : ℕ
  pub total_bytes : ℕ
  pub count : ℕ
  pub motion_count : ℕ
  pub stage : Stage
  pub nonmotion_evicted_through : ℕ

-- `SUM(bytes)`, `SUM(motion)` and `MAX(id)` of the frames, 0 where there are none.
unfoldable pub sum_bytes : List Frame → ℕ
sum_bytes [] = 0
sum_bytes (f ∷ frames) = f.n_bytes + sum_bytes frames

unfoldable pub sum_motion : List Frame → ℕ
sum_motion [] = 0
sum_motion (f ∷ frames) = (if f.motion then 1 else 0) + sum_motion frames

unfoldable pub max_id : List Frame → ℕ
max_id [] = 0
max_id (f ∷ frames) = max f.id (max_id frames)

-- The counters, read again from the committed rows.
unfoldable pub resync : Store → Store
unfolding sum_bytes sum_motion
resync s = record s {
  total_bytes = sum_bytes s.db.frames;
  count = length s.db.frames;
  motion_count = sum_motion s.db.frames;
}
