-- ===== src/Cleanup/Batch.antt =====
-- What one `Store.purge_nonmotion_batch` (compute/collection/store.py) does to the tables.
use cat_automation.Prelude.{
  ℕ, ◌≡◌, refl, sym, ap, ◌∙◌, inl, inr, ◌⊎◌, Bool, true, false, Option, none, some, List, [], ◌∷◌,
  ◌&&◌, not, filter, length, take, drop, take-append_drop, arith,
}
use cat_automation.Store.Tables.{Frame, Store, max_id, resync}
use cat_automation.Store.Delete.{delete_frame}
use cat_automation.Store.Counted.{IsCounted}
use cat_automation.Store.Untouched.{Untouched}
use cat_automation.Store.Purge.{up_to, delete_rows, purge_selected, purge_nonmotion_batch}
use cat_automation.Cleanup.Strip.{delete_rows-Strip}

-- The non-motion frames with ids up to the bound.
abbrev pub selects : Option ℕ → Frame → Bool
selects until_id f = not f.motion && up_to until_id f.id

abbrev pub selected : Option ℕ → Store → List Frame
selected until_id s = filter (selects until_id) s.db.frames

-- The highest id of the rows, where there are any.
abbrev pub newest : List Frame → Option ℕ
newest [] = none
newest (f ∷ rows) = some (max_id (f ∷ rows))

purge_selected-eq :
    (rows : List Frame) (s : Store)
    → purge_selected false rows s
      ≡ (delete_rows rows s, some (record { deleted = length rows; max_deleted_id = newest rows }))
unfolding purge_selected delete_rows
purge_selected-eq [] s = refl
purge_selected-eq (f ∷ rows) s = refl

pub purge_nonmotion_batch-eq :
    (until_id : Option ℕ) (n : ℕ) (s : Store) (left : List Frame)
    → selected until_id s ≡ left
    → purge_nonmotion_batch false until_id n s ≡ (
      delete_rows (take n left) s,
      some (record { deleted = length (take n left); max_deleted_id = newest (take n left) }),
    )
unfolding purge_nonmotion_batch
purge_nonmotion_batch-eq until_id n s left h =
    ap (λ l. purge_selected false (take n l) s) h ∙ purge_selected-eq (take n left) s

-- Where the database does not fail, and from ascending ids and counters that are those of the
-- rows: of the non-motion frames of the window, the `n` oldest go and the others stay, and all
-- other frames stay; the counters stay those of the rows, and the configuration and the tables
-- that are not keyed by a frame the same; and the result counts the frames that went and gives
-- the highest id of them.
pub purge_nonmotion_batch_deletes :
    (until_id : Option ℕ) (n : ℕ) (s : Store)
    → IsCounted s
    → let (t, b) = purge_nonmotion_batch false until_id n s in
      let rows = take n (selected until_id s) in
      (selected until_id t ≡ drop n (selected until_id s))
      × (filter (λ f. not (selects until_id f)) t.db.frames
          ≡ filter (λ f. not (selects until_id f)) s.db.frames)
      × IsCounted t
      × Untouched s t
      × (b ≡ some (record { deleted = length rows; max_deleted_id = newest rows }))
purge_nonmotion_batch_deletes until_id n s c =
    let l = selected until_id s in
    let e = purge_nonmotion_batch-eq until_id n s l refl in
    let strip =
      delete_rows-Strip (selects until_id) (take n l) (drop n l) s c (sym (take-append_drop n l)) in
    rw e (strip.passing, strip.others, strip.counted, strip.untouched, refl)

-- What deleting rows leaves alone, apart from the tables.
delete_rows-kept :
    (rows : List Frame) (s : Store)
    → let t = delete_rows rows s in
      (t.max_bytes ≡ s.max_bytes)
      × (t.stage ≡ s.stage)
      × (t.nonmotion_evicted_through ≡ s.nonmotion_evicted_through)
unfolding delete_rows delete_frame
delete_rows-kept [] s = (refl, refl, refl)
delete_rows-kept (f ∷ rows) s = delete_rows-kept rows (delete_frame f s)

purge_selected_fails :
    (rows : List Frame) (s : Store)
    → IsCounted s
    → let (t, b) = purge_selected true rows s in
      (t ≡ record s { files = t.files }) × (rows ≡ [] ⊎ b ≡ none)
unfolding purge_selected resync
purge_selected_fails [] s c = (refl, inl refl)
purge_selected_fails (f ∷ rows) s c =
    let (cap, stage, frontier) = delete_rows-kept (f ∷ rows) s in
    (ground (arith, c.bytes, c.rows, c.motion, cap, stage, frontier), inr refl)

-- Where the database fails, and from ascending ids and counters that are those of the rows: the
-- tables, the counters, the frontier and the configuration are as they were before the batch, and
-- the batch raises unless no row is selected.
purge_nonmotion_batch_fails :
    (until_id : Option ℕ) (n : ℕ) (s : Store)
    → IsCounted s
    → let (t, b) = purge_nonmotion_batch true until_id n s in
      (t ≡ record s { files = t.files }) × (take n (selected until_id s) ≡ [] ⊎ b ≡ none)
unfolding purge_nonmotion_batch
purge_nonmotion_batch_fails until_id n s c = purge_selected_fails (take n (selected until_id s)) s c
