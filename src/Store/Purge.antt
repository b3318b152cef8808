-- ===== src/Store/Purge.antt =====
-- `Store.purge_nonmotion_batch` and `Store.record_purge_span` (compute/collection/store.py).
use cat_automation.Prelude.{
  ℕ, Bool, true, false, Option, none, some, List, [], ◌∷◌, ◌++◌, not, ◌&&◌, leb, max, min, length,
  filter, take,
}
use cat_automation.Spans.Coalesce.{IdSpan}
use cat_automation.Store.Tables.{Frame, Store, max_id, resync}
use cat_automation.Store.Delete.{delete_frame}

unfoldable pub up_to : Option ℕ → ℕ → Bool
up_to none id = true
up_to (some until_id) id = leb id until_id

-- `SELECT … WHERE motion = 0 AND id <= until_id ORDER BY id ASC LIMIT batch_size`
unfoldable pub purge_rows : Option ℕ → ℕ → List Frame → List Frame
unfolding up_to
purge_rows until_id batch_size frames =
    take batch_size (filter (λ f. not f.motion && up_to until_id f.id) frames)

unfoldable pub delete_rows : List Frame → Store → Store
delete_rows [] s = s
delete_rows (row ∷ rows) s = delete_rows rows (delete_frame row s)

-- What the batch returns: the rows deleted, and the highest id among them.
pub record Batch : Type 0 where
  pub deleted : ℕ
  pub max_deleted_id : Option ℕ

unfoldable pub purge_selected : Bool → List Frame → Store → Store × Option Batch
unfolding resync delete_rows
purge_selected fails [] s = (s, some (record { deleted = 0; max_deleted_id = none }))
purge_selected true (row ∷ rows) s =
    (resync (record (delete_rows (row ∷ rows) s) { db = s.db }), none)
purge_selected false (row ∷ rows) s = (
  delete_rows (row ∷ rows) s,
  some (record { deleted = length (row ∷ rows); max_deleted_id = some (max_id (row ∷ rows)) }),
)

-- `Store.purge_nonmotion_batch`; `fails` says whether the database raises before the COMMIT is done,
-- and `none` stands for that exception raised again.
unfoldable pub purge_nonmotion_batch : Bool → Option ℕ → ℕ → Store → Store × Option Batch
unfolding purge_selected purge_rows
purge_nonmotion_batch fails until_id batch_size s =
    purge_selected fails (purge_rows until_id batch_size s.db.frames) s

-- `Store.record_purge_span`: the two ends in either order.
unfoldable pub record_purge_span : ℕ → ℕ → Store → Store
record_purge_span start_id end_id s =
    let span : IdSpan = record { start_id = min start_id end_id; end_id = max start_id end_id } in
    record s { db = record (s.db) { purge_spans = s.db.purge_spans ++ span ∷ [] } }
