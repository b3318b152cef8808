-- ===== src/Store/Sparing.antt =====
-- What a round of `Store._evict_locked` (compute/collection/store.py) does to the rows, where it prefers
-- non-motion ones.
use cat_automation.Prelude.{
  ℕ, ◌≤◌, ◌≡◌, ◌⊎◌, refl, inl, inr, Bool, true, false, none, some, List, [], ◌∷◌, ◌==◌, not, filter,
  All, Bool-cases, arith,
}
use cat_automation.Store.Tables.{Frame}
use cat_automation.Store.Delete.{delete_frame, remove_id}
use cat_automation.Store.Rows.{
  Ascend, AscendFrom-Ascend, find, remove_id-absent, find-remove_id, Found, Fresh, Distinct,
  Found-remove_id,
}
use cat_automation.Store.Evict.{Eviction, evict_row, over_cap, evict_rows}
use cat_automation.Store.Counted.{IsCounted, delete_frame-IsCounted}

abbrev pub motion_frames : List Frame → List Frame
motion_frames frames = filter (λ f. f.motion) frames

abbrev pub nonmotion_frames : List Frame → List Frame
nonmotion_frames frames = filter (λ f. not f.motion) frames

pub remove_id-nonmotion :
    (row : Frame) (frames : List Frame)
    → Ascend frames
    → find row.id frames ≡ some row
    → row.motion ≡ false
    → motion_frames (remove_id row.id frames) ≡ motion_frames frames
unfolding find remove_id
remove_id-nonmotion row [] a h m = refl
remove_id-nonmotion row (f ∷ frames) a h m = elim (Bool-cases (f.id == row.id)) [
  | inl same ↦ ground (arith, remove_id-absent row.id f.id frames)
  | inr other ↦ ground (arith, remove_id-nonmotion row frames (AscendFrom-Ascend f.id frames a))
]

pub remove_id-no_nonmotion :
    (k : ℕ) (frames : List Frame)
    → nonmotion_frames frames ≡ []
    → nonmotion_frames (remove_id k frames) ≡ []
unfolding remove_id
remove_id-no_nonmotion k [] h = refl
remove_id-no_nonmotion k (f ∷ frames) h = ground (arith, remove_id-no_nonmotion k frames)

pub find-no_nonmotion :
    (k : ℕ) (frames : List Frame) (r : Frame)
    → nonmotion_frames frames ≡ []
    → find k frames ≡ some r
    → r.motion ≡ true
unfolding find
find-no_nonmotion k [] r h e = cc
find-no_nonmotion k (f ∷ frames) r h e = ground (arith, find-no_nonmotion k frames r)

-- What eviction has done to the rows `frames` so far, where it prefers non-motion rows.
pub record Sparing (frames : List Frame) (e : Eviction) : Type 0 where
  pub counted : IsCounted e.store
  pub spared :
      (nonmotion_frames e.store.db.frames ≡ [])
      ⊎ (motion_frames e.store.db.frames ≡ motion_frames frames)
  pub kept : (i : ℕ) (r : Frame) → find i e.store.db.frames ≡ some r → find i frames ≡ some r
  pub marked :
      (i : ℕ) (r : Frame)
      → find i frames ≡ some r
      → r.motion ≡ false
      → find i e.store.db.frames ≡ none
      → i ≤ e.stripped_through

-- A row that may go next.
abbrev pub Victim : Bool → List Frame → Frame → Type 0
Victim true left row = row.motion ≡ false
Victim false left row = nonmotion_frames left ≡ []

pub evict_row-Sparing :
    (preferential : Bool) (frames : List Frame) (row : Frame) (e : Eviction)
    → find row.id e.store.db.frames ≡ some row
    → Victim preferential e.store.db.frames row
    → Sparing frames e
    → Sparing frames (evict_row preferential row e)
unfolding evict_row delete_frame
evict_row-Sparing true frames row e h v s =
    let left = e.store.db.frames in
    record {
      counted = delete_frame-IsCounted row e.store h s.counted;
      spared = ground (
        arith,
        s.spared,
        remove_id-no_nonmotion row.id left,
        remove_id-nonmotion row left s.counted.ascend h v,
      );
      kept = λ i r k. s.kept i r (ground (arith, k, find-remove_id i row.id left));
      marked =
          λ i r k m gone. ground (arith, s.marked i r k m, k, gone, find-remove_id i row.id left);
    }
evict_row-Sparing false frames row e h v s =
    let left = e.store.db.frames in
    record {
      counted = delete_frame-IsCounted row e.store h s.counted;
      spared = inl (remove_id-no_nonmotion row.id left v);
      kept = λ i r k. s.kept i r (ground (arith, k, find-remove_id i row.id left));
      marked = λ i r k m gone. ground (
        arith,
        s.marked i r k m,
        s.kept row.id row h,
        find-no_nonmotion row.id left row v h,
        gone,
        find-remove_id i row.id left,
      );
    }

pub evict_row-Victim :
    (preferential : Bool) (row r : Frame) (e : Eviction)
    → Victim preferential e.store.db.frames r
    → Victim preferential (evict_row preferential row e).store.db.frames r
unfolding evict_row delete_frame
evict_row-Victim true row r e v = v
evict_row-Victim false row r e v = remove_id-no_nonmotion row.id e.store.db.frames v

pub evict_row-Victims :
    (preferential : Bool) (row : Frame) (rows : List Frame) (e : Eviction)
    → All (Victim preferential e.store.db.frames) rows
    → All (Victim preferential (evict_row preferential row e).store.db.frames) rows
evict_row-Victims preferential row [] e v = tt
evict_row-Victims preferential row (r ∷ rows) e v =
    (evict_row-Victim preferential row r e v.0, evict_row-Victims preferential row rows e v.1)

pub evict_row-Found :
    (preferential : Bool) (row : Frame) (rows : List Frame) (e : Eviction)
    → Fresh row.id rows
    → Found e.store.db.frames rows
    → Found (evict_row preferential row e).store.db.frames rows
unfolding evict_row delete_frame
evict_row-Found preferential row rows e n h = Found-remove_id row.id e.store.db.frames rows n h

pub evict_rows-Sparing :
    (preferential : Bool) (frames rows : List Frame) (e : Eviction)
    → Found e.store.db.frames rows
    → Distinct rows
    → All (Victim preferential e.store.db.frames) rows
    → Sparing frames e
    → Sparing frames (evict_rows preferential rows e)
unfolding evict_rows
evict_rows-Sparing preferential frames [] e h d v s = s
evict_rows-Sparing preferential frames (row ∷ rows) e h d v s =
    let e' = evict_row preferential row e in
    let s' = evict_row-Sparing preferential frames row e h.0 v.0 s in
    let found = evict_row-Found preferential row rows e d.0 h.1 in
    elim (Bool-cases (over_cap e'.store)) [
      | inr fits ↦ rw fits s'
      | inl over ↦ rw over (
          evict_rows-Sparing preferential frames rows e' found d.1
            (evict_row-Victims preferential row rows e v.1) s')
    ]
