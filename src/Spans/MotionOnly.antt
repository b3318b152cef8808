-- ===== src/Spans/MotionOnly.antt =====
-- `Store.motion_only_spans` (compute/collection/store.py) over the rows that its queries return:
-- the mode changes in insertion order, the purge spans, the eviction frontier and MAX(frames.id),
-- 0 for an empty table.
use cat_automation.Prelude.{
  ℕ, Bool, true, false, Option, none, some, List, [], ◌∷◌, ◌++◌, leb, ltb, max, min, if◌then◌else◌,
  sort_by,
}
use cat_automation.Spans.Coalesce.{IdSpan, coalesce_id_spans}

pub record ModeChange : Type 0 where
  pub at_id : ℕ
  pub motion_only : Bool

-- `ORDER BY at_id ASC, rowid ASC`, by a stable sort of the rows in insertion order.
abbrev pub at_id_le : ModeChange → ModeChange → Bool
at_id_le a b = leb a.at_id b.at_id

unfoldable pub same_state : Option Bool → Bool → Bool
same_state (some true) true = true
same_state (some false) false = true
same_state _ _ = false

-- The loop that drops a change to the state that is already on; `prev` is `changes[-1][1]`.
unfoldable pub change_points : Option Bool → List ModeChange → List ModeChange
unfolding same_state
change_points prev [] = []
change_points prev (row ∷ rows) =
    let rest = change_points (some row.motion_only) rows in
    if same_state prev row.motion_only then rest else row ∷ rest

unfoldable pub clip_lo : Option ℕ → ℕ → ℕ
clip_lo none start = start
clip_lo (some since_id) start = max start since_id

unfoldable pub clip_hi : Option ℕ → ℕ → ℕ
clip_hi none end = end
clip_hi (some until_id) end = min end until_id

-- `[{start_id: lo, end_id: hi}]` clipped to the window, or nothing where the clip is empty.
unfoldable pub clip_span : Option ℕ → Option ℕ → IdSpan → List IdSpan
unfolding clip_lo clip_hi
clip_span since_id until_id s =
    let lo = clip_lo since_id s.start_id in
    let hi = clip_hi until_id s.end_id in
    if leb lo hi then record { start_id = lo; end_id = hi } ∷ [] else []

-- Where a segment ends: at the next change, or at the end of the store.
unfoldable pub segment_end : ℕ → List ModeChange → ℕ
segment_end store_end [] = store_end
segment_end store_end (c ∷ changes) = c.at_id

unfoldable pub on_spans : Option ℕ → Option ℕ → ℕ → List ModeChange → List IdSpan
unfolding clip_span segment_end
on_spans since_id until_id store_end [] = []
on_spans since_id until_id store_end (c ∷ changes) =
    (if c.motion_only
      then clip_span since_id until_id
          (record { start_id = c.at_id; end_id = segment_end store_end changes })
      else [])
    ++ on_spans since_id until_id store_end changes

unfoldable pub clip_all : Option ℕ → Option ℕ → List IdSpan → List IdSpan
unfolding clip_span
clip_all since_id until_id [] = []
clip_all since_id until_id (s ∷ spans) =
    clip_span since_id until_id s ++ clip_all since_id until_id spans

-- The purge spans, and the prefix that preferential eviction has stripped.
unfoldable pub stripped_spans : List IdSpan → ℕ → List IdSpan
stripped_spans purge_rows evicted_through =
    purge_rows
    ++ (if ltb 0 evicted_through
        then record { start_id = 1; end_id = evicted_through } ∷ []
        else [])

unfoldable pub fold_stripped : Option ℕ → Option ℕ → List IdSpan → List IdSpan → List IdSpan
unfolding clip_all
fold_stripped since_id until_id spans [] = spans
fold_stripped since_id until_id spans (s ∷ stripped) =
    coalesce_id_spans (spans ++ clip_all since_id until_id (s ∷ stripped))

abbrev pub store_end_of : Option ℕ → ℕ → ℕ
store_end_of none max_id = max_id
store_end_of (some until_id) max_id = until_id

unfoldable pub motion_only_spans :
    List ModeChange → List IdSpan → ℕ → ℕ → Option ℕ → Option ℕ → List IdSpan
unfolding change_points on_spans stripped_spans fold_stripped
motion_only_spans rows purge_rows evicted_through max_id since_id until_id =
    let changes = change_points none (sort_by at_id_le rows) in
    fold_stripped since_id until_id
      (on_spans since_id until_id (store_end_of until_id max_id) changes)
      (stripped_spans purge_rows evicted_through)
