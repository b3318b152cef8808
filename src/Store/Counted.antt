-- ===== src/Store/Counted.antt =====
-- The counters of `Store` and its rows under `_delete_frame_locked` and `_evict_locked`
-- (compute/collection/store.py).
use cat_automation.Prelude.{
  ℕ, zero, suc, ◌-◌, ◌≤◌, ◌<◌, ◌≡◌, inl, inr, Bool, true, false, some, List, [], ◌∷◌, not, ltb,
  length, if◌then◌else◌, filter, sort_by, All-filter, All-take, All-sort_by, Bool-cases, arith,
}
use cat_automation.Store.Tables.{Frame, Store, sum_bytes, sum_motion, stage_keeps_all_frames}
use cat_automation.Store.Delete.{delete_frame}
use cat_automation.Store.Rows.{
  Ascend, find, remove_id-Ascend, remove_id-Removed, Found, Fresh, Distinct, Ascend-Distinct,
  Ascend-Found, Found-remove_id, Distinct-filter, Distinct-take, Distinct-sort_by,
}
use cat_automation.Store.Evict.{
  evict_batch, recv_ts_le, oldest_nonmotion, oldest, prefer_or, victims, Eviction, evict_row,
  over_cap, evict_rows, zero_counters, has_rows, evict_loop, advance_frontier, evict,
}

-- The ids ascend, and the counters are those of the rows.
pub record IsCounted (s : Store) : Type 0 where
  pub ascend : Ascend s.db.frames
  pub bytes : s.total_bytes ≡ sum_bytes s.db.frames
  pub rows : s.count ≡ length s.db.frames
  pub motion : s.motion_count ≡ sum_motion s.db.frames

-- Deleting a row of the table takes it out of the counters too.
pub delete_frame-IsCounted :
    (row : Frame) (s : Store)
    → find row.id s.db.frames ≡ some row
    → IsCounted s
    → IsCounted (delete_frame row s)
unfolding delete_frame
delete_frame-IsCounted row s h c =
    let gone = remove_id-Removed row s.db.frames c.ascend h in
    record {
      ascend = remove_id-Ascend row.id s.db.frames c.ascend;
      bytes = ground (arith, gone.bytes);
      rows = ground (arith, gone.rows);
      motion = ground (arith, gone.motion);
    }

delete_frame-length :
    (row : Frame) (s : Store)
    → find row.id s.db.frames ≡ some row
    → IsCounted s
    → suc (length (delete_frame row s).db.frames) ≡ length s.db.frames
unfolding delete_frame
delete_frame-length row s h c = (remove_id-Removed row s.db.frames c.ascend h).rows

delete_frame-Found :
    (row : Frame) (s : Store) (rows : List Frame)
    → Fresh row.id rows
    → Found s.db.frames rows
    → Found (delete_frame row s).db.frames rows
unfolding delete_frame
delete_frame-Found row s rows n h = Found-remove_id row.id s.db.frames rows n h

-- What a round of deletions keeps, and that it leaves `n` rows at most.
pub record Shrunk (e : Eviction) (n : ℕ) : Type 0 where
  pub counted : IsCounted e.store
  pub shorter : length e.store.db.frames ≤ n

pub evict_rows-Shrunk :
    (preferential : Bool) (rows : List Frame) (e : Eviction)
    → Found e.store.db.frames rows
    → Distinct rows
    → IsCounted e.store
    → Shrunk
        (evict_rows preferential rows e)
        (if has_rows rows then length e.store.db.frames - 1 else length e.store.db.frames)
unfolding evict_rows evict_row has_rows
evict_rows-Shrunk preferential [] e h d c = record { counted = c; shorter = omega arith }
evict_rows-Shrunk preferential (row ∷ rows) e h d c =
    let e' = evict_row preferential row e in
    let c' = delete_frame-IsCounted row e.store h.0 c in
    let one = delete_frame-length row e.store h.0 c in
    let ih =
      evict_rows-Shrunk preferential rows e' (delete_frame-Found row e.store rows d.0 h.1) d.1 c' in
    elim (Bool-cases (over_cap e'.store)) [
      | inl over ↦
          rw over (record { counted = ih.counted; shorter = ground (arith, one, ih.shorter) })
      | inr fits ↦ rw fits (record { counted = c'; shorter = omega (arith, one) })
    ]

-- The selected rows are rows of the table, each once, and there are some if the table has some.
pub record Selected (frames rows : List Frame) : Type 0 where
  pub found : Found frames rows
  pub distinct : Distinct rows
  pub all_gone : has_rows rows ≡ false → has_rows frames ≡ false

oldest-Selected : (frames : List Frame) → Ascend frames → Selected frames (oldest frames)
unfolding oldest has_rows
oldest-Selected frames a = record {
  found = All-take (λ r. find r.id frames ≡ some r) evict_batch frames (Ascend-Found frames a);
  distinct = Distinct-take evict_batch frames (Ascend-Distinct frames a);
  all_gone = λ h. ground (arith, h);
}

prefer_or-Selected :
    (frames rows fallback : List Frame)
    → Found frames rows
    → Distinct rows
    → Selected frames fallback
    → Selected frames (prefer_or rows fallback).rows
unfolding prefer_or has_rows
prefer_or-Selected frames [] fallback h d s = s
prefer_or-Selected frames (r ∷ rows) fallback h d s = record {
  found = h;
  distinct = d;
  all_gone = λ e. cc;
}

pub victims-Selected :
    (prefer : Bool) (frames : List Frame)
    → Ascend frames
    → Selected frames (victims prefer frames).rows
unfolding victims prefer_or oldest_nonmotion
victims-Selected false frames a = oldest-Selected frames a
victims-Selected true frames a =
    let nonmotion = filter (λ f. not f.motion) frames in
    let Row = λ (r : Frame). find r.id frames ≡ some r in
    prefer_or-Selected frames (oldest_nonmotion frames) (oldest frames)
      (All-take Row evict_batch (sort_by recv_ts_le nonmotion) (
        All-sort_by Row recv_ts_le nonmotion
          (All-filter Row (λ f. not f.motion) frames (Ascend-Found frames a))))
      (Distinct-take evict_batch (sort_by recv_ts_le nonmotion) (
        Distinct-sort_by recv_ts_le nonmotion
          (Distinct-filter (λ f. not f.motion) frames (Ascend-Distinct frames a))))
      (oldest-Selected frames a)

-- The loop ends with the counters right and the total under the cap.
pub record Evicted (e : Eviction) : Type 0 where
  pub counted : IsCounted e.store
  pub fits : over_cap e.store ≡ false

zero_counters-Evicted :
    (e : Eviction)
    → IsCounted e.store
    → has_rows e.store.db.frames ≡ false
    → Evicted (zero_counters e)
unfolding zero_counters has_rows over_cap sum_bytes sum_motion
zero_counters-Evicted e c h = record {
  counted = record {
    ascend = c.ascend;
    bytes = ground (arith, h);
    rows = ground (arith, h);
    motion = ground (arith, h);
  };
  fits = ground arith;
}

sum_bytes-length_pos : (frames : List Frame) → 0 < sum_bytes frames → 0 < length frames
unfolding sum_bytes
sum_bytes-length_pos [] h = elim h [ ]
sum_bytes-length_pos (f ∷ frames) h = omega arith

length_pos :
    (e : Eviction) → IsCounted e.store → over_cap e.store ≡ true → 0 < length e.store.db.frames
unfolding over_cap
length_pos e c over = sum_bytes-length_pos e.store.db.frames (ground (arith, c.bytes))

pub evict_loop-Evicted :
    (fuel : ℕ) (prefer : Bool) (e : Eviction)
    → length e.store.db.frames < fuel
    → IsCounted e.store
    → Evicted (evict_loop fuel prefer e)
unfolding evict_loop
evict_loop-Evicted zero prefer e h c = elim h [ ]
evict_loop-Evicted (suc fuel) prefer e h c =
    let v = victims prefer e.store.db.frames in
    let sel = victims-Selected prefer e.store.db.frames c.ascend in
    let round = evict_rows-Shrunk v.preferential v.rows e sel.found sel.distinct c in
    elim (Bool-cases (over_cap e.store)) [
      | inr fits ↦ rw fits (record { counted = c; fits = fits })
      | inl over ↦ elim (Bool-cases (has_rows v.rows)) [
        | inl some_rows ↦
            rw (over, some_rows)
              (evict_loop-Evicted fuel prefer (evict_rows v.preferential v.rows e)
                (ground (arith, length_pos e c over, some_rows, round.shorter)) round.counted)
        | inr no_rows ↦ rw (over, no_rows) (zero_counters-Evicted e c (sel.all_gone no_rows))
      ]
    ]

advance_frontier-Evicted :
    (e : Eviction)
    → Evicted e
    → IsCounted (advance_frontier e)
      × ((advance_frontier e).total_bytes ≤ (advance_frontier e).max_bytes)
unfolding advance_frontier over_cap
advance_frontier-Evicted e v =
    elim (Bool-cases (ltb e.store.nonmotion_evicted_through e.stripped_through)) [
      | inl further ↦ rw further (
        record {
          ascend = v.counted.ascend;
          bytes = v.counted.bytes;
          rows = v.counted.rows;
          motion = v.counted.motion;
        },
        ground (arith, v.fits),
      )
      | inr no_further ↦ rw no_further (v.counted, ground (arith, v.fits))
    ]

-- From a store with ascending ids and counters that are those of its rows, eviction comes to an
-- end with such a store, and its total fits the cap.
pub evict_lem :
    (s : Store) → IsCounted s → IsCounted (evict s) × ((evict s).total_bytes ≤ (evict s).max_bytes)
unfolding evict
evict_lem s c =
    let e : Eviction = record { store = s; stripped_through = 0 } in
    let prefer = not (stage_keeps_all_frames s.stage) in
    advance_frontier-Evicted (evict_loop (suc (length s.db.frames)) prefer e)
      (evict_loop-Evicted (suc (length s.db.frames)) prefer e (omega arith) c)
