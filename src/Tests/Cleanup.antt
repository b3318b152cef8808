-- ===== src/Tests/Cleanup.antt =====
-- The cleanup job (compute/collection/cleanup.py) on a store of three frames, of which the second shows
-- no motion.
use cat_automation.Prelude.{
  ℕ, ◌==◌, Option, if◌then◌else◌, ◌≡◌, refl, ◌⊎◌, true, false, none, some, List, [], ◌∷◌, ◌++◌, not,
  filter, length, take, drop, arith,
}
use cat_automation.Spans.Union.{covers}
use cat_automation.Store.Tables.{tuning, Store, MediaPath}
use cat_automation.Store.Rows.{find}
use cat_automation.Store.Counted.{IsCounted}
use cat_automation.Store.Untouched.{Untouched}
use cat_automation.Store.Purge.{up_to, purge_nonmotion_batch, delete_rows, record_purge_span}
use cat_automation.Store.Delete.{delete_frame, unlink}
use cat_automation.Cleanup.Nonmotion.{is_set, start_run, Summary, run_nonmotion, purge_loop}
use cat_automation.Cleanup.Slot.{
  Slot, started, serve, asks, new_slot, begin, next, IsSingle, SlotReach-IsSingle,
}
use cat_automation.Cleanup.Batch.{selects, selected, newest, purge_nonmotion_batch_deletes}
use cat_automation.Cleanup.Purged.{full_run, IsUndisturbed}
use cat_automation.Cleanup.Progress.{Leaves, LoopLeaves, after_round}
use cat_automation.Store.Add.{Capture, add}
use cat_automation.Store.Atomic.{IsConsistent, add_succeeds}
use cat_automation.Store.Evict.{evict, advance_frontier, evict_loop}
use cat_automation.Cleanup.Recorded.{run_nonmotion_claims_only_purged}
use cat_automation.Cleanup.Orphan.{
  is_referenced, run_orphan, orphan_loop, take_file, flush, delete_orphan_batch, uniq_after,
  sweep_files, sweep_file,
}
use cat_automation.Cleanup.Swept.{keeps, stays}
use cat_automation.Cleanup.Orphans.{run_orphan_removes_unnamed}
use cat_automation.Tests.Store.{frame, frames, store, store-IsCounted}

purge_nonmotion_batch_deletes_example :
    let (t, b) = purge_nonmotion_batch false (some 3) 1 (store tuning 100) in
    let rows = take 1 (selected (some 3) (store tuning 100)) in
    (selected (some 3) t ≡ drop 1 (selected (some 3) (store tuning 100)))
    × (filter (λ f. not (selects (some 3) f)) t.db.frames
        ≡ filter (λ f. not (selects (some 3) f)) frames)
    × IsCounted t
    × Untouched (store tuning 100) t
    × (b ≡ some (record { deleted = length rows; max_deleted_id = newest rows }))
purge_nonmotion_batch_deletes_example =
    purge_nonmotion_batch_deletes (some 3) 1 (store tuning 100) (store-IsCounted tuning 100)

abbrev fourth : Capture
fourth = record { frame_id = 4; recv_ts = 4000; motion = true; n_bytes = 10 }

-- The collector adds a motion frame between the first batch and the second one.
abbrev collector : ℕ → Store → Store
collector i s = let added = (add none fourth s).0 in if i == 1 then added else s

unchanged : (until_id : Option ℕ) (s : Store) → IsCounted s → Leaves until_id s s
unchanged until_id s c = record { counted = c; selected_rows = refl; purge_spans = refl }

abbrev one_batch : Store
one_batch = (purge_nonmotion_batch false (some 2) 500 (store tuning 100)).0

one_batch-IsConsistent : IsConsistent one_batch
one_batch-IsConsistent = record {
  counted =
      (purge_nonmotion_batch_deletes (some 2) 500 (store tuning 100)
        (store-IsCounted tuning 100)).2;
  frontier = unfold purge_nonmotion_batch delete_rows delete_frame in refl;
}

abbrev one_more : Store
one_more = (add none fourth one_batch).0

one_more-IsCounted : IsCounted one_more
one_more-IsCounted = (add_succeeds fourth one_batch one_batch-IsConsistent).0.counted

one_more-Leaves : Leaves (some 2) one_batch one_more
one_more-Leaves = record {
  counted = one_more-IsCounted;
  selected_rows =
      unfold purge_nonmotion_batch delete_rows delete_frame add evict advance_frontier evict_loop
        up_to in
      refl;
  purge_spans =
      unfold purge_nonmotion_batch delete_rows delete_frame add evict advance_frontier evict_loop in
      refl;
}

collector-IsUndisturbed : IsUndisturbed collector none (some 2) (store tuning 100)
unfolding LoopLeaves after_round full_run purge_nonmotion_batch delete_rows delete_frame purge_loop
    add evict advance_frontier evict_loop start_run
collector-IsUndisturbed = record {
  loop = (
    unchanged (some 2) (store tuning 100) (store-IsCounted tuning 100),
    (
      one_more-Leaves,
      (
        unchanged (some 2) one_more one_more-IsCounted,
        (unchanged (some 2) one_more one_more-IsCounted, refl),
      ),
    ),
  );
  end = unchanged (some 2) one_more one_more-IsCounted;
}

-- The store after a purge up to frame 2.
abbrev purged : Store
purged = (run_nonmotion (λ i. false) collector none (some 2) (some 1) (store tuning 100)).0

purged_frames : purged.db.frames ≡ frame 1 true ∷ frame 3 true ∷ frame 4 true ∷ []
unfolding run_nonmotion purge_nonmotion_batch delete_rows delete_frame record_purge_span purge_loop
    add evict advance_frontier evict_loop
purged_frames = refl

run_nonmotion_claims_only_purged_example : true ≡ true ⊎ covers [] 1 ≡ true
run_nonmotion_claims_only_purged_example =
    run_nonmotion_claims_only_purged collector none (some 2) 1 (store tuning 100) 1 (frame 1 true)
      (store-IsCounted tuning 100) collector-IsUndisturbed
      (omega arith, (omega arith, (omega arith, tt)))
      (unfold run_nonmotion purge_nonmotion_batch delete_rows delete_frame record_purge_span
          purge_loop find add evict advance_frontier evict_loop in
        refl)
      (unfold run_nonmotion purge_nonmotion_batch delete_rows delete_frame record_purge_span
          purge_loop find add evict advance_frontier evict_loop in
        refl)

abbrev idle : Slot Summary
idle = new_slot

-- Two requests, of which the second finds the slot taken.
abbrev taken : Slot Summary
taken = serve (started "orphan") (serve (started "nonmotion") idle)

SlotReach-IsSingle_example : IsSingle taken
SlotReach-IsSingle_example = SlotReach-IsSingle (
    next (next begin (asks (started "nonmotion") idle))
      (asks (started "orphan") (serve (started "nonmotion") idle)))

-- The store with a file that no row names.
abbrev leaked : Store
leaked =
    let s = store tuning 100 in
    record s { files = record { recv_ts = 500; frame_id = 9 } ∷ s.files }

leaked_swept : (run_orphan (λ p. true) none leaked).0.files ≡ (store tuning 100).files
unfolding run_orphan orphan_loop take_file flush is_set delete_orphan_batch uniq_after sweep_files
    sweep_file is_referenced unlink
leaked_swept = refl

run_orphan_removes_unnamed_example :
    let (t, summary) = run_orphan (λ p. true) (some 3) leaked in
    (t.db ≡ leaked.db)
    × ((done rest : List MediaPath) × (leaked.files ≡ done ++ rest)
        × (t.files ≡ filter (stays (λ p. true) leaked.db.frames done) leaked.files))
    × (summary.canceled ≡ false
        → t.files ≡ filter (λ x. keeps (λ p. true) leaked.db.frames x) leaked.files)
run_orphan_removes_unnamed_example = run_orphan_removes_unnamed (λ p. true) (some 3) leaked
