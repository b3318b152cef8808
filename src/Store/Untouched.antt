-- ===== src/Store/Untouched.antt =====
-- What `Store._evict_locked` (compute/collection/store.py) leaves alone: the configuration and the
-- tables that are not keyed by a frame.
use cat_automation.Prelude.{
  ℕ, zero, suc, ◌≡◌, refl, inl, inr, Bool, List, [], ◌∷◌, not, length, ltb, Bool-cases, arith,
}
use cat_automation.Store.Tables.{Frame, Store, stage_keeps_all_frames}
use cat_automation.Store.Delete.{delete_frame}
use cat_automation.Store.Evict.{
  victims, Eviction, evict_row, over_cap, evict_rows, zero_counters, has_rows, evict_loop,
  advance_frontier, evict,
}

pub record Untouched (s t : Store) : Type 0 where
  pub max_bytes : t.max_bytes ≡ s.max_bytes
  pub stage : t.stage ≡ s.stage
  pub groups : t.db.groups ≡ s.db.groups
  pub label_flags : t.db.label_flags ≡ s.db.label_flags
  pub mode_changes : t.db.mode_changes ≡ s.db.mode_changes
  pub purge_spans : t.db.purge_spans ≡ s.db.purge_spans

-- The loops do not move the frontier either.
record Deleting (s t : Store) : Type 0 where
  untouched : Untouched s t
  frontier : t.nonmotion_evicted_through ≡ s.nonmotion_evicted_through
  persisted : t.db.nonmotion_evicted ≡ s.db.nonmotion_evicted

Deleting-refl : (s : Store) → Deleting s s
Deleting-refl s = ground arith

Deleting-trans : (s t u : Store) → Deleting s t → Deleting t u → Deleting s u
Deleting-trans s t u a b = ground arith

delete_frame-Deleting : (row : Frame) (s : Store) → Deleting s (delete_frame row s)
unfolding delete_frame
delete_frame-Deleting row s = ground arith

evict_rows-Deleting :
    (preferential : Bool) (rows : List Frame) (e : Eviction)
    → Deleting e.store (evict_rows preferential rows e).store
unfolding evict_rows evict_row
evict_rows-Deleting preferential [] e = Deleting-refl e.store
evict_rows-Deleting preferential (row ∷ rows) e =
    let e' = evict_row preferential row e in
    let one = delete_frame-Deleting row e.store in
    elim (Bool-cases (over_cap e'.store)) [
      | inr fits ↦ rw fits one
      | inl over ↦ rw over (
          Deleting-trans e.store e'.store (evict_rows preferential rows e').store one
            (evict_rows-Deleting preferential rows e'))
    ]

zero_counters-Deleting : (e : Eviction) → Deleting e.store (zero_counters e).store
unfolding zero_counters
zero_counters-Deleting e = ground arith

evict_loop-Deleting :
    (fuel : ℕ) (prefer : Bool) (e : Eviction) → Deleting e.store (evict_loop fuel prefer e).store
unfolding evict_loop
evict_loop-Deleting zero prefer e = Deleting-refl e.store
evict_loop-Deleting (suc fuel) prefer e =
    let v = victims prefer e.store.db.frames in
    let e' = evict_rows v.preferential v.rows e in
    elim (Bool-cases (over_cap e.store)) [
      | inr fits ↦ rw fits (Deleting-refl e.store)
      | inl over ↦ elim (Bool-cases (has_rows v.rows)) [
        | inl some_rows ↦
            rw (over, some_rows)
              (Deleting-trans e.store e'.store (evict_loop fuel prefer e').store
                (evict_rows-Deleting v.preferential v.rows e) (evict_loop-Deleting fuel prefer e'))
        | inr no_rows ↦ rw (over, no_rows) (zero_counters-Deleting e)
      ]
    ]

advance_frontier-Untouched :
    (e : Eviction)
    → Untouched e.store (advance_frontier e)
      × (e.store.nonmotion_evicted_through ≡ e.store.db.nonmotion_evicted
          → (advance_frontier e).nonmotion_evicted_through
            ≡ (advance_frontier e).db.nonmotion_evicted)
unfolding advance_frontier
advance_frontier-Untouched e =
    elim (Bool-cases (ltb e.store.nonmotion_evicted_through e.stripped_through)) [
      | inl further ↦ rw further (ground arith, λ h. refl)
      | inr no_further ↦ rw no_further (ground arith, λ h. h)
    ]

-- Eviction leaves the configuration and the tables that are not keyed by a frame alone, and a persisted
-- frontier persisted.
pub evict-Untouched :
    (s : Store)
    → Untouched s (evict s)
      × (s.nonmotion_evicted_through ≡ s.db.nonmotion_evicted
          → (evict s).nonmotion_evicted_through ≡ (evict s).db.nonmotion_evicted)
unfolding evict
evict-Untouched s =
    let prefer = not (stage_keeps_all_frames s.stage) in
    let e : Eviction = record { store = s; stripped_through = 0 } in
    let e' = evict_loop (suc (length s.db.frames)) prefer e in
    let d = evict_loop-Deleting (suc (length s.db.frames)) prefer e in
    let (same, persisted) = advance_frontier-Untouched e' in
    (ground (arith, d, same), λ h. persisted (ground (arith, d, h)))
