-- ===== src/Store/Add.antt =====
-- `Store.add` and `Store.clear` (compute/collection/store.py). An exception is raised again after the
-- store is put right, so a method returns the store and, where it succeeds, its result.
use cat_automation.Prelude.{
  ℕ, suc, ◌+◌, Bool, Option, none, some, List, [], ◌∷◌, ◌++◌, any, length, if◌then◌else◌,
}
use cat_automation.Store.Tables.{MediaPath, path_eq, Frame, Db, Store, max_id, resync}
use cat_automation.Store.Delete.{unlink, calendar_invalidate_day}
use cat_automation.Store.Evict.{evict}
use cat_automation.Store.Halted.{evict_until}

-- What `add` stores of a stream frame: its metadata, its receive time and `len(jpeg)`.
pub record Capture : Type 0 where
  pub frame_id : ℕ
  pub recv_ts : ℕ
  pub motion : Bool
  pub n_bytes : ℕ

-- Where the sequence of writes raises: at the file, at the INSERT or the calendar's DELETE after it, in the
-- eviction, at the DELETE that follows this many deleted rows or at the frontier's write, or at the COMMIT.
pub data Fault : Type 0 where
  write_error insert_error commit_error : Fault
  evict_error : ℕ → Fault

unfoldable pub media_path : Capture → MediaPath
media_path c = record { recv_ts = c.recv_ts; frame_id = c.frame_id }

-- Opening a path that is there writes over it.
unfoldable pub write_file : MediaPath → List MediaPath → List MediaPath
write_file p files = if any (path_eq p) files then files else p ∷ files

-- SQLite gives a row the id after the highest one in the table.
unfoldable pub new_row : Capture → List Frame → Frame
unfolding media_path max_id
new_row c frames = record {
  id = suc (max_id frames);
  path = media_path c;
  motion = c.motion;
  n_bytes = c.n_bytes;
}

-- The INSERT and the counters that follow it, up to the eviction.
unfoldable pub insert_frame : Capture → Store → Store
unfolding new_row write_file calendar_invalidate_day
insert_frame c s = record s {
  db = record (s.db) {
    frames = s.db.frames ++ new_row c s.db.frames ∷ [];
    calendar_days = calendar_invalidate_day c.recv_ts s.db.calendar_days;
  };
  files = write_file (media_path c) s.files;
  total_bytes = s.total_bytes + c.n_bytes;
  count = s.count + 1;
  motion_count = if c.motion then s.motion_count + 1 else s.motion_count;
}

-- The `except` block: the tables go back to `db`, the new file goes, and the counters and the
-- frontier are read again.
unfoldable pub recover : Capture → Db → Store → Store
unfolding resync unlink media_path
recover c db s = resync (record s {
  db = db;
  files = unlink (media_path c) s.files;
  nonmotion_evicted_through = db.nonmotion_evicted;
})

-- `Store.add`: `none` stands for the exception raised again.
unfoldable pub add : Option Fault → Capture → Store → Store × Option ℕ
unfolding insert_frame recover evict_until
add (some write_error) c s =
    (recover c s.db (record s { files = write_file (media_path c) s.files }), none)
add (some insert_error) c s =
    (recover c s.db (record s { files = write_file (media_path c) s.files }), none)
add (some (evict_error n)) c s = (recover c s.db (evict_until n (insert_frame c s)), none)
add (some commit_error) c s = (recover c s.db (evict (insert_frame c s)), none)
add none c s = (evict (insert_frame c s), some (suc (max_id s.db.frames)))

unfoldable pub unlink_all : List Frame → List MediaPath → List MediaPath
unfolding unlink
unlink_all [] files = files
unlink_all (f ∷ rows) files = unlink_all rows (unlink f.path files)

-- `Store.clear`: every table that names frames by id goes, and the frontier with them.
unfoldable pub clear : Store → Store × ℕ
unfolding unlink_all
clear s = (
  record s {
    db = record {
      frames = [];
      analysis = [];
      identifications = [];
      calendar_days = [];
      groups = [];
      label_flags = [];
      mode_changes = [];
      purge_spans = [];
      nonmotion_evicted = 0;
    };
    files = unlink_all s.db.frames s.files;
    total_bytes = 0;
    count = 0;
    motion_count = 0;
    nonmotion_evicted_through = 0;
  },
  length s.db.frames,
)
