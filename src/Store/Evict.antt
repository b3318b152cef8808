-- ===== src/Store/Evict.antt =====
-- `Store._evict_locked` (compute/collection/store.py).
use cat_automation.Prelude.{
  ℕ, zero, suc, Bool, true, false, List, [], ◌∷◌, not, max, leb, ltb, length, if◌then◌else◌, filter,
  sort_by, take,
}
use cat_automation.Store.Tables.{Frame, Store, stage_keeps_all_frames}
use cat_automation.Store.Delete.{delete_frame}

abbrev pub evict_batch : ℕ
evict_batch = 64

abbrev pub recv_ts_le : Frame → Frame → Bool
recv_ts_le f g = leb f.path.recv_ts g.path.recv_ts

-- `SELECT … WHERE motion = 0 ORDER BY recv_ts ASC LIMIT 64`; the rowid breaks ties.
unfoldable pub oldest_nonmotion : List Frame → List Frame
oldest_nonmotion frames = take evict_batch (sort_by recv_ts_le (filter (λ f. not f.motion) frames))

-- `SELECT … ORDER BY id ASC LIMIT 64`
unfoldable pub oldest : List Frame → List Frame
oldest frames = take evict_batch frames

pub record Victims : Type 0 where
  pub rows : List Frame
  pub preferential : Bool

unfoldable pub prefer_or : List Frame → List Frame → Victims
prefer_or [] fallback = record { rows = fallback; preferential = false }
prefer_or (f ∷ rows) fallback = record { rows = f ∷ rows; preferential = true }

-- The rows to delete next: non-motion ones first where the stage prefers those.
unfoldable pub victims : Bool → List Frame → Victims
unfolding prefer_or oldest oldest_nonmotion
victims prefer_nonmotion frames =
    prefer_or (if prefer_nonmotion then oldest_nonmotion frames else []) (oldest frames)

-- The store and `stripped_through` as the loops carry them.
pub record Eviction : Type 0 where
  pub store : Store
  pub stripped_through : ℕ

unfoldable pub evict_row : Bool → Frame → Eviction → Eviction
evict_row preferential row e = record {
  store = delete_frame row e.store;
  stripped_through = if preferential then max e.stripped_through row.id else e.stripped_through;
}

unfoldable pub over_cap : Store → Bool
over_cap s = ltb s.max_bytes s.total_bytes

-- The `for` loop, which breaks once the total fits the cap.
unfoldable pub evict_rows : Bool → List Frame → Eviction → Eviction
unfolding evict_row over_cap
evict_rows preferential [] e = e
evict_rows preferential (row ∷ rows) e =
    let e' = evict_row preferential row e in
    let rest = evict_rows preferential rows e' in if over_cap e'.store then rest else e'

unfoldable pub zero_counters : Eviction → Eviction
zero_counters e = record e {
  store = record (e.store) { total_bytes = 0; count = 0; motion_count = 0 };
}

unfoldable pub has_rows : List Frame → Bool
has_rows [] = false
has_rows (f ∷ rows) = true

-- The `while` loop, on fuel. A round that finds rows deletes one at least.
unfoldable pub evict_loop : ℕ → Bool → Eviction → Eviction
unfolding evict_rows victims zero_counters has_rows over_cap
evict_loop zero prefer e = e
evict_loop (suc fuel) prefer e =
    let v = victims prefer e.store.db.frames in
    let rest = evict_loop fuel prefer (evict_rows v.preferential v.rows e) in
    if over_cap e.store then if has_rows v.rows then rest else zero_counters e else e

-- The frontier moves on where the preferential path went beyond it, in memory and in the table.
unfoldable pub advance_frontier : Eviction → Store
advance_frontier e =
    if ltb e.store.nonmotion_evicted_through e.stripped_through
    then record (e.store) {
      nonmotion_evicted_through = e.stripped_through;
      db = record (e.store.db) { nonmotion_evicted = e.stripped_through };
    }
    else e.store

unfoldable pub evict : Store → Store
evict s = advance_frontier (
    evict_loop (suc (length s.db.frames)) (not (stage_keeps_all_frames s.stage))
      (record { store = s; stripped_through = 0 }))
