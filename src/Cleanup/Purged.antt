-- ===== src/Cleanup/Purged.antt =====
-- What `CleanupManager._run_nonmotion` (compute/collection/cleanup.py) deletes.
use cat_automation.Prelude.{
  ℕ, suc, ◌≡◌, refl, inl, inr, ◌⊎◌, false, Option, none, some, [], length, length-filter_le, ltb,
  Bool-cases, arith,
}
use cat_automation.Store.Tables.{Store}
use cat_automation.Store.Counted.{IsCounted}
use cat_automation.Store.Purge.{record_purge_span}
use cat_automation.Cleanup.Batch.{selects, selected}
use cat_automation.Cleanup.Nonmotion.{
  is_set, Run, start_run, purge_loop, effective_end, record_span, conclude,
}
use cat_automation.Cleanup.Progress.{
  Leaves, LoopLeaves, disturbed, disturbed-Progress, Progress, Ended, purge_loop-Ended,
}

-- The run of the loop from the start.
unfoldable pub full_run : (ℕ → Store → Store) → Option ℕ → Option ℕ → Store → Run
full_run others cancel_at until_id s =
    purge_loop (suc (length s.db.frames)) 500 (λ i. false) others cancel_at until_id (start_run s)

-- Between the holds of its lock, the other threads leave the rows that the window selects as they are, and
-- record no span.
pub record IsUndisturbed (others : ℕ → Store → Store) (cancel_at until_id : Option ℕ) (s : Store)
    : Type 0 where
  pub loop : LoopLeaves (suc (length s.db.frames)) 500 others until_id (start_run s)
  pub end :
      let r = full_run others cancel_at until_id s in
      Leaves until_id r.store (others r.readings r.store)

-- The run as the recording of the span finds it.
abbrev pub ended_run : (ℕ → Store → Store) → Option ℕ → Option ℕ → Store → Run
ended_run others cancel_at until_id s = disturbed others (full_run others cancel_at until_id s)

pub full_run-Ended :
    (others : ℕ → Store → Store) (cancel_at until_id : Option ℕ) (s : Store)
    → IsCounted s
    → IsUndisturbed others cancel_at until_id s
    → Ended cancel_at until_id s (ended_run others cancel_at until_id s)
unfolding full_run start_run
full_run-Ended others cancel_at until_id s c u =
    let begin : Progress until_id s (start_run s) [] (selected until_id s) = record {
      split = refl;
      counted = c;
      passing = refl;
      purge_spans = refl;
      count = refl;
      last = refl;
      running = refl;
    } in
    let e =
      purge_loop-Ended (suc (length s.db.frames)) 499 others cancel_at until_id s (start_run s) []
        (selected until_id s) c (omega (arith, length-filter_le (selects until_id) s.db.frames))
        u.loop begin in
    record {
      gone = e.gone;
      left = e.left;
      progress = disturbed-Progress others until_id s _ e.gone e.left u.end e.progress;
      drained = e.drained;
    }

record_span_cases :
    (since_id end : Option ℕ) (s : Store)
    → let t = (record_span since_id end s).0 in
      t ≡ s ⊎ (lo : ℕ) × (hi : ℕ) × (t ≡ record_purge_span lo hi s)
unfolding record_span
record_span_cases none end s = inl refl
record_span_cases (some lo) none s = inl refl
record_span_cases (some lo) (some hi) s = inr (lo, hi, refl)

conclude_cases :
    (cancel_at until_id since_id : Option ℕ) (r : Run)
    → let t = (conclude cancel_at until_id since_id r).0 in
      t ≡ r.store ⊎ (lo : ℕ) × (hi : ℕ) × (t ≡ record_purge_span lo hi r.store)
unfolding conclude
conclude_cases cancel_at until_id since_id r = elim (Bool-cases (ltb 0 r.deleted)) [
  | inl some_rows ↦ rw some_rows (
      record_span_cases since_id (effective_end (is_set cancel_at r.readings) until_id r.last_max)
        r.store)
  | inr no_rows ↦ rw no_rows (inl refl)
]

-- The table of the spans apart, the store is the one that the loop leaves.
pub conclude-frames :
    (cancel_at until_id since_id : Option ℕ) (r : Run)
    → IsCounted r.store
    → let t = (conclude cancel_at until_id since_id r).0 in
      IsCounted t × (t.db.frames ≡ r.store.db.frames)
conclude-frames cancel_at until_id since_id r c =
    elim (conclude_cases cancel_at until_id since_id r) [
      | inl same ↦ rw same (c, refl)
      | inr (lo, hi, e) ↦ rw e (
          unfold record_purge_span in
          (record { ascend = c.ascend; bytes = c.bytes; rows = c.rows; motion = c.motion }, refl))
    ]
