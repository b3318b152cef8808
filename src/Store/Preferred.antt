-- ===== src/Store/Preferred.antt =====
-- `Store._evict_locked` (compute/collection/store.py) where the stage prefers non-motion rows.
use cat_automation.Store.Sparing.{
  motion_frames, nonmotion_frames, Sparing, Victim, evict_rows-Sparing,
}
use cat_automation.Prelude.{
  ℕ, zero, suc, ◌≤◌, ◌≡◌, ◌≢◌, ◌⊎◌, refl, inl, inr, true, false, none, some, List, [], ◌∷◌, length,
  take, All, insert_by, sort_by, All-take, All-sort_by, Bool-cases, arith,
}
use native.Mathlib.Nat.{le_trans}
use cat_automation.Store.Tables.{Frame, Store, sum_bytes, sum_motion, stage_keeps_all_frames}
use cat_automation.Store.Rows.{find}
use cat_automation.Store.Evict.{
  evict_batch, recv_ts_le, oldest_nonmotion, oldest, prefer_or, victims, Eviction, over_cap,
  evict_rows, zero_counters, has_rows, evict_loop, advance_frontier, evict,
}
use cat_automation.Store.Counted.{IsCounted, victims-Selected}

All-const : (P : Type 0) (rows : List Frame) → P → All (λ r. P) rows
All-const P [] p = tt
All-const P (r ∷ rows) p = (p, All-const P rows p)

All-nonmotion : (frames : List Frame) → All (λ r. r.motion ≡ false) (nonmotion_frames frames)
All-nonmotion [] = tt
All-nonmotion (f ∷ frames) = elim (Bool-cases f.motion) [
  | inl e ↦ simp e (All-nonmotion frames)
  | inr e ↦ simp e (refl, All-nonmotion frames)
]

take-insert_by-ne-nil :
    (n : ℕ) (a : Frame) (frames : List Frame) → take (suc n) (insert_by recv_ts_le a frames) ≢ []
take-insert_by-ne-nil n a [] h = cc
take-insert_by-ne-nil n a (f ∷ frames) h = ground (arith, h)

sort_by-eq-nil :
    (frames : List Frame) → take evict_batch (sort_by recv_ts_le frames) ≡ [] → frames ≡ []
sort_by-eq-nil [] h = refl
sort_by-eq-nil (f ∷ frames) h = absurd (take-insert_by-ne-nil 63 f (sort_by recv_ts_le frames) h)

prefer_or-Victim :
    (left rows : List Frame)
    → All (λ r. r.motion ≡ false) rows
    → (rows ≡ [] → nonmotion_frames left ≡ [])
    → let v = prefer_or rows (oldest left) in All (Victim v.preferential left) v.rows
unfolding prefer_or
prefer_or-Victim left [] n e = All-const (nonmotion_frames left ≡ []) (oldest left) (e refl)
prefer_or-Victim left (r ∷ rows) n e = n

victims-Victim :
    (left : List Frame) → let v = victims true left in All (Victim v.preferential left) v.rows
unfolding victims oldest_nonmotion
victims-Victim left =
    let rows = nonmotion_frames left in
    let Nonmotion = λ (r : Frame). r.motion ≡ false in
    prefer_or-Victim left (oldest_nonmotion left)
      (All-take Nonmotion evict_batch (sort_by recv_ts_le rows)
        (All-sort_by Nonmotion recv_ts_le rows (All-nonmotion left)))
      (λ h. sort_by-eq-nil rows h)

zero_counters-Sparing :
    (frames : List Frame) (e : Eviction)
    → has_rows e.store.db.frames ≡ false
    → Sparing frames e
    → Sparing frames (zero_counters e)
unfolding zero_counters has_rows sum_bytes sum_motion
zero_counters-Sparing frames e h s = record {
  counted = record {
    ascend = s.counted.ascend;
    bytes = ground (arith, h);
    rows = ground (arith, h);
    motion = ground (arith, h);
  };
  spared = s.spared;
  kept = s.kept;
  marked = s.marked;
}

evict_loop-Sparing :
    (fuel : ℕ) (frames : List Frame) (e : Eviction)
    → Sparing frames e
    → Sparing frames (evict_loop fuel true e)
unfolding evict_loop
evict_loop-Sparing zero frames e s = s
evict_loop-Sparing (suc fuel) frames e s =
    let v = victims true e.store.db.frames in
    let sel = victims-Selected true e.store.db.frames s.counted.ascend in
    let round =
      evict_rows-Sparing v.preferential frames v.rows e sel.found sel.distinct
        (victims-Victim e.store.db.frames) s in
    elim (Bool-cases (over_cap e.store)) [
      | inr fits ↦ rw fits s
      | inl over ↦ elim (Bool-cases (has_rows v.rows)) [
        | inl some_rows ↦
            rw (over, some_rows)
              (evict_loop-Sparing fuel frames (evict_rows v.preferential v.rows e) round)
        | inr no_rows ↦ rw (over, no_rows) (zero_counters-Sparing frames e (sel.all_gone no_rows) s)
      ]
    ]

advance_frontier_lem :
    (e : Eviction)
    → ((advance_frontier e).db.frames ≡ e.store.db.frames)
      × (e.stripped_through ≤ (advance_frontier e).nonmotion_evicted_through)
unfolding advance_frontier
advance_frontier_lem e = ground arith

-- Outside the stages that keep all frames, and from ascending ids and counters that are those of
-- the rows: if a non-motion frame is left, no motion frame has gone; and every non-motion frame
-- that has gone lies at or below the frontier.
pub evict_prefers_nonmotion :
    (s : Store)
    → stage_keeps_all_frames s.stage ≡ false
    → IsCounted s
    → ((nonmotion_frames (evict s).db.frames ≡ [])
        ⊎ (motion_frames (evict s).db.frames ≡ motion_frames s.db.frames))
      × ((i : ℕ) (r : Frame)
          → find i s.db.frames ≡ some r
          → r.motion ≡ false
          → find i (evict s).db.frames ≡ none
          → i ≤ (evict s).nonmotion_evicted_through)
unfolding evict
evict_prefers_nonmotion s prefers c =
    let frames = s.db.frames in
    let e : Eviction = record { store = s; stripped_through = 0 } in
    let e' = evict_loop (suc (length frames)) true e in
    let begin : Sparing frames e = record {
      counted = c;
      spared = inr refl;
      kept = λ i r k. k;
      marked = λ i r k m gone. cc;
    } in
    let end = evict_loop-Sparing (suc (length frames)) frames e begin in
    let (same, reached) = advance_frontier_lem e' in
    rw (prefers, same) (end.spared, λ i r k m gone. le_trans (end.marked i r k m gone) reached)
