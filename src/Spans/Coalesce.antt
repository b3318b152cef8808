-- ===== src/Spans/Coalesce.antt =====
-- `_coalesce_id_spans` (compute/collection/store.py).
use cat_automation.Prelude.{
  ℕ, Bool, List, [], ◌∷◌, ◌++◌, ◌&&◌, ◌||◌, ltb, leb, max, ◌==◌, if◌then◌else◌, sort_by,
}

pub record IdSpan : Type 0 where
  pub start_id : ℕ
  pub end_id : ℕ

-- Python's order on the keys `(start_id, end_id)`.
unfoldable pub key_le : IdSpan → IdSpan → Bool
key_le a b = ltb a.start_id b.start_id || a.start_id == b.start_id && leb a.end_id b.end_id

-- The `for` loop: `merged` holds the finished spans, the last of which is `last`.
unfoldable pub merge_loop : List IdSpan → IdSpan → List IdSpan → List IdSpan
merge_loop merged last [] = merged ++ last ∷ []
merge_loop merged last (span ∷ spans) =
    let overlap = leb span.start_id last.end_id in
    merge_loop (if overlap then merged else merged ++ last ∷ [])
      (if overlap then record last { end_id = max last.end_id span.end_id } else span) spans

unfoldable pub merge_sorted : List IdSpan → List IdSpan
unfolding merge_loop
merge_sorted [] = []
merge_sorted (span ∷ spans) = merge_loop [] span spans

unfoldable pub coalesce_id_spans : List IdSpan → List IdSpan
unfolding merge_sorted key_le
coalesce_id_spans spans = merge_sorted (sort_by key_le spans)
