-- ===== src/Collector/Logged.antt =====
-- The store and the log of capture modes under the calls that reach a run of the collector
-- (compute/collection/collector.py).
use cat_automation.Prelude.{
  ℕ, suc, ◌≡◌, ◌≤◌, refl, sym, subst, ◌∙◌, Bool, true, false, Option, none, some, List, [], ◌∷◌,
  ◌++◌, not, inl, inr, zero, Bool-cases, if◌then◌else◌, arith,
}
use cat_automation.Spans.MotionOnly.{ModeChange}
use cat_automation.Store.Tables.{Store}
use cat_automation.Store.Mode.{record_mode_change}
use cat_automation.Store.Atomic.{IsConsistent}
use cat_automation.Collector.Manager.{
  CollectorManager, start_manager, stop_manager, same_mode, Toggle, Shared, flip_motion_only,
  write_toggle, nth_toggle, drop_toggle, write_found, write_motion_only, Call, starts, stops, flips,
  writes, answer, answer_all,
}

-- The mode of the newest row of the log.
pub last_mode : Bool → List ModeChange → Bool
last_mode state [] = state
last_mode state (row ∷ rows) = last_mode row.motion_only rows

last_mode-snoc :
    (state : Bool) (rows : List ModeChange) (row : ModeChange)
    → last_mode state (rows ++ row ∷ []) ≡ row.motion_only
unfolding last_mode
last_mode-snoc state [] row = refl
last_mode-snoc state (r ∷ rows) row = last_mode-snoc r.motion_only rows row

-- The newest logged mode is the one in force, but for the one call of `set_motion_only` that has set the flag
-- to another value and has not logged it yet.
abbrev pub IsLogged : List Toggle → Bool → Bool → Type 0
IsLogged [] motion_only logged = logged ≡ motion_only
IsLogged (t ∷ []) motion_only logged =
    (t.value ≡ motion_only) × (t.changed ≡ false → logged ≡ motion_only)
IsLogged _ motion_only logged = ⊥

-- The store is right, it fits its cap, and the newest logged mode is the one in force.
pub record IsRecorded (w : Shared) : Type 0 where
  pub consistent : IsConsistent w.store
  pub fits : w.store.total_bytes ≤ w.store.max_bytes
  pub mode : IsLogged w.toggles w.manager.motion_only (last_mode false w.store.db.mode_changes)

pub record_mode_change-IsConsistent :
    (value : Bool) (s : Store) → IsConsistent s → IsConsistent (record_mode_change value s)
unfolding record_mode_change
record_mode_change-IsConsistent value s h = record {
  counted = record {
    ascend = h.counted.ascend;
    bytes = h.counted.bytes;
    rows = h.counted.rows;
    motion = h.counted.motion;
  };
  frontier = h.frontier;
}

pub last_mode-record_mode_change :
    (value : Bool) (s : Store)
    → last_mode false (record_mode_change value s).db.mode_changes ≡ value
unfolding record_mode_change
last_mode-record_mode_change value s = last_mode-snoc false s.db.mode_changes _

same_mode-eq : (a b : Bool) → same_mode a b ≡ true → b ≡ a
unfolding same_mode
same_mode-eq true true h = refl
same_mode-eq true false h = h
same_mode-eq false true h = sym h
same_mode-eq false false h = refl

-- No call sets the flag while another one has not written yet.
abbrev pub IsAlone : Call → Shared → Type 0
IsAlone (flips value) w = w.toggles ≡ []
IsAlone _ w = w ≡ w

unfoldable pub AreAlone : List Call → Shared → Type 0
AreAlone [] w = w ≡ w
AreAlone (call ∷ calls) w = IsAlone call w × AreAlone calls (answer call w)

flip-IsLogged :
    (value motion_only logged : Bool) (toggles : List Toggle)
    → toggles ≡ []
    → IsLogged toggles motion_only logged
    → IsLogged
        (toggles ++ (record { value = value; changed = not (same_mode value motion_only) } ∷ []))
        value
        logged
flip-IsLogged value motion_only logged [] e h =
    (refl, λ unchanged. h ∙ same_mode-eq value motion_only (ground (arith, unchanged)))
flip-IsLogged value motion_only logged (t ∷ toggles) e h = ground (arith, e)

write-IsLogged :
    (n : ℕ) (toggles : List Toggle) (motion_only : Bool) (s : Store)
    → IsConsistent s
    → s.total_bytes ≤ s.max_bytes
    → IsLogged toggles motion_only (last_mode false s.db.mode_changes)
    → (t : Toggle) → nth_toggle n toggles ≡ some t
    → let s' = if t.changed then record_mode_change t.value s else s in
      IsConsistent s'
      × (s'.total_bytes ≤ s'.max_bytes)
      × IsLogged (drop_toggle n toggles) motion_only (last_mode false s'.db.mode_changes)
unfolding nth_toggle drop_toggle
write-IsLogged n [] motion_only s c fits h t e = cc e
write-IsLogged n (t1 ∷ t2 ∷ toggles) motion_only s c fits h t e = absurd h
write-IsLogged (suc n) (t1 ∷ []) motion_only s c fits h t e = cc e
write-IsLogged zero (t1 ∷ []) motion_only s c fits h t e =
    let same : t1 ≡ t = cc e in
    subst
      (λ (t : Toggle).
        let s' = if t.changed then record_mode_change t.value s else s in
        IsConsistent s'
        × (s'.total_bytes ≤ s'.max_bytes)
        × (last_mode false s'.db.mode_changes ≡ motion_only))
      same
      (elim (Bool-cases t1.changed) [
        | inl changed ↦ rw changed (
          record_mode_change-IsConsistent t1.value s c,
          unfold record_mode_change in fits,
          last_mode-record_mode_change t1.value s ∙ h.0,
        )
        | inr unchanged ↦ rw unchanged (c, fits, h.1 unchanged)
      ])

write_found-IsRecorded :
    (found : Option Toggle) (n : ℕ) (w : Shared)
    → nth_toggle n w.toggles ≡ found
    → IsRecorded w
    → IsRecorded (write_found found n w)
unfolding write_found write_toggle
write_found-IsRecorded none n w e h = h
write_found-IsRecorded (some t) n w e h =
    let (c, fits, mode) =
      write-IsLogged n w.toggles w.manager.motion_only w.store h.consistent h.fits h.mode t e in
    record { consistent = c; fits = fits; mode = mode }

same_flag_starts : (m : CollectorManager) → m.motion_only ≡ (start_manager m).motion_only
unfolding start_manager
same_flag_starts m = ground arith

same_flag_stops : (m : CollectorManager) → m.motion_only ≡ (stop_manager m).motion_only
unfolding stop_manager
same_flag_stops m = ground arith

answer-IsRecorded :
    (call : Call) (w : Shared) → IsAlone call w → IsRecorded w → IsRecorded (answer call w)
unfolding answer start_manager stop_manager flip_motion_only write_motion_only
answer-IsRecorded starts w alone h = record {
  consistent = h.consistent;
  fits = h.fits;
  mode =
      subst (λ b. IsLogged w.toggles b (last_mode false w.store.db.mode_changes))
        (same_flag_starts w.manager) h.mode;
}
answer-IsRecorded stops w alone h = record {
  consistent = h.consistent;
  fits = h.fits;
  mode =
      subst (λ b. IsLogged w.toggles b (last_mode false w.store.db.mode_changes))
        (same_flag_stops w.manager) h.mode;
}
answer-IsRecorded (flips value) w alone h = record {
  consistent = h.consistent;
  fits = h.fits;
  mode =
      flip-IsLogged value w.manager.motion_only (last_mode false w.store.db.mode_changes) w.toggles
        alone h.mode;
}
answer-IsRecorded (writes n) w alone h = write_found-IsRecorded (nth_toggle n w.toggles) n w refl h

pub answer_all-IsRecorded :
    (calls : List Call) (w : Shared)
    → AreAlone calls w
    → IsRecorded w
    → IsRecorded (answer_all calls w)
unfolding answer_all AreAlone
answer_all-IsRecorded [] w alone h = h
answer_all-IsRecorded (call ∷ calls) w alone h =
    answer_all-IsRecorded calls (answer call w) alone.1 (answer-IsRecorded call w alone.0 h)
