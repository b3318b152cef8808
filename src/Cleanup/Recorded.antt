-- ===== src/Cleanup/Recorded.antt =====
-- The span that `CleanupManager._run_nonmotion` (compute/collection/cleanup.py) records.
use cat_automation.Prelude.{
  ℕ, ◌≡◌, ◌≤◌, ◌<◌, refl, sym, ap, subst, ◌∙◌, inl, inr, ◌⊎◌, true, false, Option, some, List, [],
  ◌∷◌, ◌++◌, ◌&&◌, ◌||◌, max, min, All, All-filter, All-front, All-map, any-append, filter, leb,
  ltb, Bool-cases, arith,
}
use cat_automation.Spans.Union.{covers}
use cat_automation.Store.Tables.{Frame, Store}
use cat_automation.Store.Rows.{Ascend, find}
use cat_automation.Store.Counted.{IsCounted}
use cat_automation.Store.Purge.{up_to, record_purge_span}
use cat_automation.Cleanup.Strip.{Ascend-filter, All-passes}
use cat_automation.Cleanup.Batch.{selects, selected}
use cat_automation.Cleanup.Nonmotion.{is_set, Run, record_span, conclude, run_nonmotion}
use cat_automation.Cleanup.Progress.{Progress}
use cat_automation.Cleanup.Span.{IsEnd, effective_end-IsEnd, All-from_filter}
use cat_automation.Cleanup.Found.{find-All}
use cat_automation.Cleanup.Purged.{
  full_run, ended_run, IsUndisturbed, full_run-Ended, conclude-frames,
}

-- The span that is recorded, where frames have gone.
record RecordedSpan (lo : ℕ) (until_id : Option ℕ) (r : Run) (gone left : List Frame) (t : Store)
    : Type 0 where
  end : ℕ
  is_end : IsEnd until_id end gone left
  recorded : t ≡ record_purge_span lo end r.store

conclude-RecordedSpan :
    (cancel_at until_id : Option ℕ) (lo : ℕ) (s : Store) (r : Run) (g : Frame)
    (gone left : List Frame)
    → IsCounted s
    → Progress until_id s r (g ∷ gone) left
    → (is_set cancel_at r.readings ≡ false → left ≡ [])
    → RecordedSpan lo until_id r (g ∷ gone) left (conclude cancel_at until_id (some lo) r).0
unfolding conclude record_span
conclude-RecordedSpan cancel_at until_id lo s r g gone left c p drained =
    let ascend : Ascend (g ∷ (gone ++ left)) =
      subst Ascend p.split (Ascend-filter (selects until_id) s.db.frames c.ascend) in
    let passes : All (λ f. selects until_id f ≡ true) ((g ∷ gone) ++ left) =
      subst (λ rows. All (λ f. selects until_id f ≡ true) rows) p.split
        (All-passes (selects until_id) s.db.frames) in
    let (end, e, is_end) =
      effective_end-IsEnd (is_set cancel_at r.readings) until_id g gone left ascend
        (All-map (λ f. selects until_id f ≡ true) (λ f. up_to until_id f.id ≡ true) (g ∷ gone)
          (λ f h. ground (arith, h))
          (All-front (λ f. selects until_id f ≡ true) (g ∷ gone) left passes))
        drained in
    let positive : ltb 0 r.deleted ≡ true = ground (arith, p.count) in
    record { end = end; is_end = is_end; recorded = rw (positive, p.last, e) refl }

-- Frames that are left lie beyond the span, or show motion.
span-left :
    (until_id : Option ℕ) (end : ℕ) (gone left frames : List Frame)
    → IsEnd until_id end gone left
    → filter (selects until_id) frames ≡ left
    → All (λ f. f.motion ≡ true ⊎ end < f.id) frames
span-left until_id end gone left frames e h =
    All-from_filter (λ f. f.motion ≡ true ⊎ end < f.id) (selects until_id) frames
      (λ f out. elim (Bool-cases f.motion) [
        | inl moving ↦ inl moving
        | inr still ↦ inr (e.within f.id (ground (arith, out, still)))
      ])
      (subst (λ rows. All (λ f. f.motion ≡ true ⊎ end < f.id) rows) (sym h)
        (All-map (λ f. end < f.id) (λ f. f.motion ≡ true ⊎ end < f.id) left (λ f above. inr above)
          e.left_above))

covers-record_purge_span :
    (lo hi : ℕ) (s : Store) (i : ℕ)
    → covers (record_purge_span lo hi s).db.purge_spans i
      ≡ covers s.db.purge_spans i || leb (min lo hi) i && leb i (max lo hi)
unfolding record_purge_span
covers-record_purge_span lo hi s i = any-append _ s.db.purge_spans _ ∙ ground arith

-- The store that the loop leaves, and the one that the job leaves.
conclude-nothing :
    (cancel_at until_id since_id : Option ℕ) (r : Run)
    → r.deleted ≡ 0
    → (conclude cancel_at until_id since_id r).0 ≡ r.store
unfolding conclude
conclude-nothing cancel_at until_id since_id r h = ground (arith, h)

run_nonmotion-store :
    (others : ℕ → Store → Store) (cancel_at until_id since_id : Option ℕ) (s : Store)
    → IsCounted s
    → IsUndisturbed others cancel_at until_id s
    → (run_nonmotion (λ i. false) others cancel_at until_id since_id s).0
      ≡ (conclude cancel_at until_id since_id (ended_run others cancel_at until_id s)).0
unfolding run_nonmotion full_run
run_nonmotion-store others cancel_at until_id since_id s c u =
    rw (full_run-Ended others cancel_at until_id s c u).progress.running refl

-- The job as a whole: what has gone, what is left, and the spans.
record Traced (lo : ℕ) (until_id : Option ℕ) (s t : Store) : Type 0 where
  gone : List Frame
  left : List Frame
  split : selected until_id s ≡ gone ++ left
  passing : selected until_id t ≡ left
  ascend : Ascend t.db.frames
  spans :
      (gone ≡ []) × (t.db.purge_spans ≡ s.db.purge_spans)
      ⊎ (end : ℕ) × IsEnd until_id end gone left
        × ((i : ℕ) → covers t.db.purge_spans i ≡ covers s.db.purge_spans i || leb lo i && leb i end)

traced_spans :
    (cancel_at until_id : Option ℕ) (lo : ℕ) (s : Store) (r : Run) (gone left : List Frame)
    → IsCounted s
    → All (λ f. lo ≤ f.id) s.db.frames
    → Progress until_id s r gone left
    → (is_set cancel_at r.readings ≡ false → left ≡ [])
    → let t = (conclude cancel_at until_id (some lo) r).0 in
      (gone ≡ []) × (t.db.purge_spans ≡ s.db.purge_spans)
      ⊎ (end : ℕ) × IsEnd until_id end gone left
        × ((i : ℕ) → covers t.db.purge_spans i ≡ covers s.db.purge_spans i || leb lo i && leb i end)
traced_spans cancel_at until_id lo s r [] left c above p drained =
    inl (refl, rw (conclude-nothing cancel_at until_id (some lo) r p.count) p.purge_spans)
traced_spans cancel_at until_id lo s r (g ∷ gone) left c above p drained =
    let span = conclude-RecordedSpan cancel_at until_id lo s r g gone left c p drained in
    let first : lo ≤ g.id =
      (subst (λ rows. All (λ f. lo ≤ f.id) rows) p.split
        (All-filter (λ f. lo ≤ f.id) (selects until_id) s.db.frames above)).0 in
    let reach : lo ≤ span.end = omega (arith, span.is_end.gone_below.0) in
    inr (
      span.end,
      span.is_end,
      λ i.
          rw (span.recorded, covers-record_purge_span lo span.end r.store i, p.purge_spans)
            (ground (arith, reach)),
    )

run_nonmotion-Traced :
    (others : ℕ → Store → Store) (cancel_at until_id : Option ℕ) (lo : ℕ) (s : Store)
    → IsCounted s
    → IsUndisturbed others cancel_at until_id s
    → All (λ f. lo ≤ f.id) s.db.frames
    → Traced lo until_id s (run_nonmotion (λ i. false) others cancel_at until_id (some lo) s).0
run_nonmotion-Traced others cancel_at until_id lo s c u above =
    let r = ended_run others cancel_at until_id s in
    let e = full_run-Ended others cancel_at until_id s c u in
    let p = e.progress in
    let (counted, same) = conclude-frames cancel_at until_id (some lo) r p.counted in
    rw (run_nonmotion-store others cancel_at until_id (some lo) s c u) (record {
      gone = e.gone;
      left = e.left;
      split = p.split;
      passing = ap (λ frames. filter (selects until_id) frames) same ∙ p.passing;
      ascend = counted.ascend;
      spans = traced_spans cancel_at until_id lo s r e.gone e.left c above p e.drained;
    })

-- Where the window's lower bound is at or below all ids, these ascend, the counters are those of
-- the rows, no batch fails, and the other threads, between the batches, leave the frames that the
-- window selects as they are, keep ids and counters so and record no span, whatever else they add
-- and delete: a frame that is left in the store and lies in a recorded span shows motion, unless a
-- span of earlier runs held it.
pub run_nonmotion_claims_only_purged :
    (others : ℕ → Store → Store) (cancel_at until_id : Option ℕ) (lo : ℕ) (s : Store) (i : ℕ)
    (row : Frame)
    → IsCounted s
    → IsUndisturbed others cancel_at until_id s
    → All (λ f. lo ≤ f.id) s.db.frames
    → let t = (run_nonmotion (λ i. false) others cancel_at until_id (some lo) s).0 in
      find i t.db.frames ≡ some row
      → covers t.db.purge_spans i ≡ true
      → row.motion ≡ true ⊎ covers s.db.purge_spans i ≡ true
run_nonmotion_claims_only_purged others cancel_at until_id lo s i row c u above found covered =
    let d = run_nonmotion-Traced others cancel_at until_id lo s c u above in
    elim d.spans [
      | inl (nothing, same) ↦ inr (sym (ap (λ spans. covers spans i) same) ∙ covered)
      | inr (end, is_end, held) ↦
          let rest = span-left until_id end d.gone d.left _ is_end d.passing in
          let (verdict, here) = find-All (λ f. f.motion ≡ true ⊎ end < f.id) i _ found rest in
          elim verdict [
            | inl moving ↦ inl moving
            | inr beyond ↦ inr (ground (arith, held i, covered, beyond, here))
          ]
    ]
