-- ===== src/Store/Oldest.antt =====
-- `Store._evict_locked` (compute/collection/store.py) where the stage keeps all frames.
use cat_automation.Prelude.{
  ℕ, zero, suc, ◌-◌, ◌≡◌, refl, sym, ◌∙◌, inl, inr, true, false, List, [], ◌∷◌, ltb, length,
  if◌then◌else◌, take, Bool-cases, arith,
}
use cat_automation.Store.Tables.{Frame, Store, stage_keeps_all_frames}
use cat_automation.Store.Delete.{delete_frame}
use cat_automation.Store.Rows.{remove_id-head, Ascend, AscendFrom-Ascend}
use cat_automation.Store.Evict.{
  evict_batch, oldest, prefer_or, victims, Eviction, evict_row, over_cap, evict_rows, zero_counters,
  has_rows, evict_loop, advance_frontier, evict,
}
use cat_automation.Store.Counted.{IsCounted, evict_loop-Evicted}

-- The rows from the first one on at which the total of what is left fits the cap.
pub drop_over : ℕ → ℕ → List Frame → List Frame
drop_over cap total [] = []
drop_over cap total (f ∷ frames) =
    let rest = drop_over cap (total - f.n_bytes) frames in
    if ltb cap total then rest else f ∷ frames

-- What is left of the rows in the end.
abbrev goal : Eviction → List Frame
goal e = drop_over e.store.max_bytes e.store.total_bytes e.store.db.frames

evict_row-goal :
    (f : Frame) (frames : List Frame) (e : Eviction)
    → e.store.db.frames ≡ f ∷ frames
    → Ascend (f ∷ frames)
    → over_cap e.store ≡ true
    → ((evict_row false f e).store.db.frames ≡ frames) × (goal (evict_row false f e) ≡ goal e)
unfolding evict_row delete_frame drop_over over_cap
evict_row-goal f frames e h a over =
    let gone = remove_id-head f frames a in (rw h gone, ground (arith, gone))

-- What holds of the loops' state while the oldest rows go.
record Dropping (e e' : Eviction) : Type 0 where
  same_goal : goal e' ≡ goal e
  ascend : Ascend e'.store.db.frames
  unstripped : e'.stripped_through ≡ e.stripped_through
  frontier : e'.store.nonmotion_evicted_through ≡ e.store.nonmotion_evicted_through

evict_rows-Dropping :
    (k : ℕ) (frames : List Frame) (e : Eviction)
    → e.store.db.frames ≡ frames
    → Ascend frames
    → over_cap e.store ≡ true
    → Dropping e (evict_rows false (take k frames) e)
unfolding evict_rows
evict_rows-Dropping zero frames e h a over = record {
  same_goal = refl;
  ascend = rw h a;
  unstripped = refl;
  frontier = refl;
}
evict_rows-Dropping (suc k) [] e h a over = record {
  same_goal = refl;
  ascend = rw h a;
  unstripped = refl;
  frontier = refl;
}
evict_rows-Dropping (suc k) (f ∷ frames) e h a over =
    let e' = evict_row false f e in
    let (left, same) = evict_row-goal f frames e h a over in
    let a' = AscendFrom-Ascend f.id frames a in
    elim (Bool-cases (over_cap e'.store)) [
      | inr fits ↦ rw fits (record {
        same_goal = same;
        ascend = rw left a';
        unstripped = unfold evict_row in refl;
        frontier = unfold evict_row delete_frame in refl;
      })
      | inl more ↦
          let ih = evict_rows-Dropping k frames e' left a' more in
          rw more (record {
            same_goal = ih.same_goal ∙ same;
            ascend = ih.ascend;
            unstripped = ih.unstripped ∙ (unfold evict_row in refl);
            frontier = ih.frontier ∙ (unfold evict_row delete_frame in refl);
          })
    ]

no_batch : (frames : List Frame) → has_rows (take evict_batch frames) ≡ false → frames ≡ []
unfolding has_rows
no_batch [] h = refl
no_batch (f ∷ frames) h = cc

zero_counters-goal : (e : Eviction) → e.store.db.frames ≡ [] → goal (zero_counters e) ≡ goal e
unfolding zero_counters drop_over
zero_counters-goal e h = rw h

evict_loop-Dropping :
    (fuel : ℕ) (e : Eviction) → Ascend e.store.db.frames → Dropping e (evict_loop fuel false e)
unfolding evict_loop victims prefer_or oldest
evict_loop-Dropping zero e a = record {
  same_goal = refl;
  ascend = a;
  unstripped = refl;
  frontier = refl;
}
evict_loop-Dropping (suc fuel) e a =
    let frames = e.store.db.frames in
    elim (Bool-cases (over_cap e.store)) [
      | inr fits ↦
          rw fits (record { same_goal = refl; ascend = a; unstripped = refl; frontier = refl })
      | inl over ↦ elim (Bool-cases (has_rows (take evict_batch frames))) [
        | inl some_rows ↦
            let round = evict_rows-Dropping evict_batch frames e refl a over in
            let ih =
              evict_loop-Dropping fuel (evict_rows false (take evict_batch frames) e)
                round.ascend in
            rw (over, some_rows)
              (record {
                same_goal = ih.same_goal ∙ round.same_goal;
                ascend = ih.ascend;
                unstripped = ih.unstripped ∙ round.unstripped;
                frontier = ih.frontier ∙ round.frontier;
              })
        | inr no_rows ↦
            rw (over, no_rows)
              (record {
                same_goal = zero_counters-goal e (no_batch frames no_rows);
                ascend = unfold zero_counters in a;
                unstripped = unfold zero_counters in refl;
                frontier = unfold zero_counters in refl;
              })
      ]
    ]

drop_over-fits :
    (cap total : ℕ) (frames : List Frame)
    → ltb cap total ≡ false
    → drop_over cap total frames ≡ frames
unfolding drop_over
drop_over-fits cap total [] h = refl
drop_over-fits cap total (f ∷ frames) h = rw h

advance_frontier-unstripped : (e : Eviction) → e.stripped_through ≡ 0 → advance_frontier e ≡ e.store
unfolding advance_frontier
advance_frontier-unstripped e h = ground (arith, h)

-- In a stage that keeps all frames, and from ascending ids and counters that are those of the
-- rows, eviction leaves exactly the rows from the first one on at which the total of what is left
-- fits the cap, whatever their motion, and the frontier where it was.
pub evict_oldest :
    (s : Store)
    → stage_keeps_all_frames s.stage ≡ true
    → IsCounted s
    → ((evict s).db.frames ≡ drop_over s.max_bytes s.total_bytes s.db.frames)
      × ((evict s).nonmotion_evicted_through ≡ s.nonmotion_evicted_through)
unfolding evict
evict_oldest s keeps c =
    let e : Eviction = record { store = s; stripped_through = 0 } in
    let fuel = suc (length s.db.frames) in
    let e' = evict_loop fuel false e in
    let d = evict_loop-Dropping fuel e c.ascend in
    let fits = (evict_loop-Evicted fuel false e (omega arith) c).fits in
    let whole =
      drop_over-fits e'.store.max_bytes e'.store.total_bytes e'.store.db.frames
        (unfold over_cap in fits) in
    rw (keeps, advance_frontier-unstripped e' d.unstripped) (sym whole ∙ d.same_goal, d.frontier)
