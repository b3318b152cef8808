-- ===== src/Store/Delete.antt =====
-- `Store._delete_frame_locked`, `_unlink` and the calendar's invalidation
-- (compute/collection/store.py).
use cat_automation.Prelude.{ℕ, ◌+◌, ◌-◌, List, ◌==◌, not, ◌&&◌, leb, ltb, if◌then◌else◌, filter}
use cat_automation.Store.Tables.{MediaPath, path_eq, Frame, CalendarDay, Store}

-- A file that is not there, or that cannot be removed, is passed over.
unfoldable pub unlink : MediaPath → List MediaPath → List MediaPath
unlink p files = filter (λ q. not (path_eq q p)) files

-- `DELETE FROM calendar_days WHERE since_id <= hi AND until_id >= lo`
unfoldable pub calendar_invalidate : ℕ → ℕ → List CalendarDay → List CalendarDay
calendar_invalidate lo hi days = filter (λ d. not (leb d.since_id hi && leb lo d.until_id)) days

abbrev pub day_ms : ℕ
day_ms = 86400000

-- `DELETE FROM calendar_days WHERE recv_ts >= day_ms AND recv_ts < day_ms + _DAY_MS`
unfoldable pub calendar_invalidate_day : ℕ → List CalendarDay → List CalendarDay
calendar_invalidate_day recv_ts days =
    filter (λ d. not (leb d.day_ms recv_ts && ltb recv_ts (d.day_ms + day_ms))) days

unfoldable pub remove_id : ℕ → List Frame → List Frame
remove_id row_id frames = filter (λ f. not (f.id == row_id)) frames

unfoldable pub remove_frame_id : ℕ → List ℕ → List ℕ
remove_frame_id row_id ids = filter (λ i. not (i == row_id)) ids

-- The row, its file and what is keyed by it go together, and the counters with them.
unfoldable pub delete_frame : Frame → Store → Store
unfolding unlink calendar_invalidate remove_id remove_frame_id
delete_frame row s = record s {
  db = record (s.db) {
    frames = remove_id row.id s.db.frames;
    analysis = remove_frame_id row.id s.db.analysis;
    identifications = remove_frame_id row.id s.db.identifications;
    calendar_days = calendar_invalidate row.id row.id s.db.calendar_days;
  };
  files = unlink row.path s.files;
  total_bytes = s.total_bytes - row.n_bytes;
  count = s.count - 1;
  motion_count = if row.motion then s.motion_count - 1 else s.motion_count;
}
