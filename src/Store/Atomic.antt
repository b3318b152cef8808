-- ===== src/Store/Atomic.antt =====
-- What `Store.add` (compute/collection/store.py) leaves, whether it returns or raises.
use cat_automation.Prelude.{
  ℕ, suc, ◌+◌, ◌≤◌, ◌<◌, ◌≡◌, refl, ap, none, some, List, [], ◌∷◌, ◌++◌, length-append,
  if◌then◌else◌, arith,
}
use cat_automation.Store.Tables.{Frame, Store, sum_bytes, sum_motion, max_id}
use cat_automation.Store.Rows.{AscendFrom, Ascend}
use cat_automation.Store.Evict.{evict}
use cat_automation.Store.Halted.{evict_until, evict_until-SameConfig}
use cat_automation.Store.Counted.{IsCounted, evict_lem}
use cat_automation.Store.Add.{
  Capture, Fault, write_error, insert_error, evict_error, commit_error, media_path, write_file,
  new_row, insert_frame, recover, add,
}
use cat_automation.Store.Untouched.{Untouched, evict-Untouched}

-- The counters are those of the rows, and the frontier is the persisted one.
pub record IsConsistent (s : Store) : Type 0 where
  pub counted : IsCounted s
  pub frontier : s.nonmotion_evicted_through ≡ s.db.nonmotion_evicted

append_row :
    (f : Frame) (frames : List Frame)
    → (sum_bytes (frames ++ f ∷ []) ≡ sum_bytes frames + f.n_bytes)
      × (sum_motion (frames ++ f ∷ []) ≡ sum_motion frames + (if f.motion then 1 else 0))
unfolding sum_bytes sum_motion
append_row f [] = ground arith
append_row f (g ∷ frames) = ground (arith, append_row f frames)

AscendFrom-append :
    (k : ℕ) (f : Frame) (frames : List Frame)
    → k < f.id
    → max_id frames < f.id
    → AscendFrom k frames
    → AscendFrom k (frames ++ f ∷ [])
unfolding max_id
AscendFrom-append k f [] h m a = (h, tt)
AscendFrom-append k f (g ∷ frames) h m a =
    (a.0, AscendFrom-append g.id f frames (omega arith) (omega arith) a.1)

Ascend-append :
    (f : Frame) (frames : List Frame)
    → max_id frames < f.id
    → Ascend frames
    → Ascend (frames ++ f ∷ [])
unfolding max_id
Ascend-append f [] m a = tt
Ascend-append f (g ∷ frames) m a = AscendFrom-append g.id f frames (omega arith) (omega arith) a

insert_frame-IsCounted : (c : Capture) (s : Store) → IsCounted s → IsCounted (insert_frame c s)
unfolding insert_frame
insert_frame-IsCounted c s h =
    let f = new_row c s.db.frames in
    record {
      ascend = Ascend-append f s.db.frames (omega arith) h.ascend;
      bytes = ground (arith, h.bytes, append_row f s.db.frames);
      rows = ground (arith, h.rows, length-append s.db.frames (f ∷ []));
      motion = ground (arith, h.motion, append_row f s.db.frames);
    }

recover_lem :
    (c : Capture) (s t : Store)
    → IsConsistent s
    → t.max_bytes ≡ s.max_bytes
    → t.stage ≡ s.stage
    → recover c s.db t ≡ record s { files = (recover c s.db t).files }
unfolding recover
recover_lem c s t h m k =
    ground (arith, h.counted.bytes, h.counted.rows, h.counted.motion, h.frontier)

insert_frame-Untouched : (c : Capture) (s : Store) → Untouched s (insert_frame c s)
unfolding insert_frame
insert_frame-Untouched c s = ground arith

insert_frame-frontier :
    (c : Capture) (s : Store)
    → s.nonmotion_evicted_through ≡ s.db.nonmotion_evicted
    → (insert_frame c s).nonmotion_evicted_through ≡ (insert_frame c s).db.nonmotion_evicted
unfolding insert_frame
insert_frame-frontier c s h = h

-- For a store with ascending ids, counters that are those of its rows and the persisted frontier
-- in memory, where no write fails: the ids, the counters and the frontier are so again, the total
-- fits the cap, the new id is one above the highest earlier one, and the configuration and the
-- tables that are not keyed by a frame are the same.
pub add_succeeds :
    (c : Capture) (s : Store)
    → IsConsistent s
    → let (t, new_id) = add none c s in
      IsConsistent t
      × (t.total_bytes ≤ t.max_bytes)
      × (new_id ≡ some (suc (max_id s.db.frames)))
      × Untouched s t
unfolding add
add_succeeds c s h =
    let s' = insert_frame c s in
    let (counted, fits) = evict_lem s' (insert_frame-IsCounted c s h.counted) in
    let (same, persisted) = evict-Untouched s' in
    (
      record { counted = counted; frontier = persisted (insert_frame-frontier c s h.frontier) },
      fits,
      refl,
      ground (arith, same, insert_frame-Untouched c s),
    )

-- For a store with ascending ids, counters that are those of its rows and the persisted frontier
-- in memory: wherever a write fails, of the file, of a row, in the eviction or at the COMMIT, `add`
-- raises, and all but the media files is as it was: the tables, the counters, the frontier and the configuration.
pub add_fails :
    (fault : Fault) (c : Capture) (s : Store)
    → IsConsistent s
    → add (some fault) c s ≡ (record s { files = (add (some fault) c s).0.files }, none)
unfolding add
add_fails write_error c s h =
    ap (λ t. (t, none))
      (recover_lem c s (record s { files = write_file (media_path c) s.files }) h refl refl)
add_fails insert_error c s h =
    ap (λ t. (t, none))
      (recover_lem c s (record s { files = write_file (media_path c) s.files }) h refl refl)
add_fails (evict_error n) c s h =
    let s' = insert_frame c s in
    let (max_bytes, stage) = evict_until-SameConfig n s' in
    let before = insert_frame-Untouched c s in
    ap (λ t. (t, none))
      (recover_lem c s (evict_until n s') h (ground (arith, max_bytes, before))
        (ground (arith, stage, before)))
add_fails commit_error c s h =
    let s' = insert_frame c s in
    let same = (evict-Untouched s').0 in
    let before = insert_frame-Untouched c s in
    ap (λ t. (t, none))
      (recover_lem c s (evict s') h (ground (arith, same, before)) (ground (arith, same, before)))
