-- ===== src/Collector/Recorded.antt =====
-- The store and the log of capture modes under a run of the collector (compute/collection/collector.py).
use cat_automation.Prelude.{
  suc, ◌+◌, ◌≡◌, ◌≤◌, refl, sym, subst, Bool, false, Option, none, some, List, [], ◌∷◌, ◌&&◌, not,
  inl, inr, Bool-cases, if◌then◌else◌, arith,
}
use cat_automation.Store.Tables.{MediaPath, Store}
use cat_automation.Store.Mode.{record_mode_change}
use cat_automation.Store.Add.{Capture, Fault, add}
use cat_automation.Store.Atomic.{IsConsistent, add_succeeds, add_fails}
use cat_automation.Collector.Manager.{Shared, answer_all}
use cat_automation.Collector.Run.{Arrival, Collecting, count_result, take_frame}
use cat_automation.Collector.Logged.{
  last_mode, last_mode-record_mode_change, record_mode_change-IsConsistent, IsLogged, IsRecorded,
  AreAlone,
}

same_rows :
    (files : List MediaPath) (s : Store)
    → IsConsistent s
    → IsConsistent (record s { files = files })
same_rows files s h = record {
  counted = record {
    ascend = h.counted.ascend;
    bytes = h.counted.bytes;
    rows = h.counted.rows;
    motion = h.counted.motion;
  };
  frontier = h.frontier;
}

-- The mode in force does not leave the frame out.
pub passes : Bool → Arrival → Bool
passes motion_only a = not (motion_only && not a.capture.motion)

-- One `add`, whether it returns or raises.
add-IsRecorded :
    (stats_raise : Bool) (fault : Option Fault) (a : Capture) (c : Collecting)
    → IsRecorded c.shared
    → let c' = count_result stats_raise (add fault a c.shared.store) c in
      IsRecorded c'.shared
      × (c'.saved + c'.errors ≡ suc (c.saved + c.errors))
      × (stats_raise ≡ false → c'.raised ≡ false)
unfolding count_result add
add-IsRecorded stats_raise none a c h =
    let (consistent, fits, new_id, same) = add_succeeds a c.shared.store h.consistent in
    (
      record {
        consistent = consistent;
        fits = fits;
        mode =
            subst
              (λ rows.
                IsLogged c.shared.toggles c.shared.manager.motion_only (last_mode false rows))
              (sym same.mode_changes) h.mode;
      },
      omega arith,
      λ quiet. ground (arith, quiet),
    )
add-IsRecorded stats_raise (some fault) a c h =
    let s = c.shared.store in
    let files = (add (some fault) a s).0.files in
    subst
      (λ r.
        let c' = count_result stats_raise r c in
        IsRecorded c'.shared
        × (c'.saved + c'.errors ≡ suc (c.saved + c.errors))
        × (stats_raise ≡ false → c'.raised ≡ false))
      (sym (add_fails fault a s h.consistent))
      (
        record { consistent = same_rows files s h.consistent; fits = h.fits; mode = h.mode },
        omega arith,
        λ quiet. refl,
      )

pub take_frame-IsRecorded :
    (a : Arrival) (c : Collecting)
    → IsRecorded c.shared
    → c.raised ≡ false
    → let c' = take_frame a c in
      IsRecorded c'.shared
      × (c'.saved + c'.errors ≡ (
          if passes c.shared.manager.motion_only a
          then suc (c.saved + c.errors)
          else c.saved + c.errors))
      × (a.stats_raise ≡ false → c'.raised ≡ false)
unfolding take_frame passes
take_frame-IsRecorded a c h on =
    elim (Bool-cases (c.shared.manager.motion_only && not a.capture.motion)) [
      | inl skips ↦ rw skips (h, refl, λ quiet. on)
      | inr keeps ↦ rw keeps (add-IsRecorded a.stats_raise a.fault a.capture c h)
    ]

-- Throughout the run, no call sets the flag while another one has not written yet.
unfoldable pub RunsAlone : List Arrival → Collecting → Type 0
RunsAlone [] c = c ≡ c
RunsAlone (a ∷ arrivals) c =
    AreAlone a.calls c.shared
    × RunsAlone arrivals (take_frame a (record c { shared = answer_all a.calls c.shared }))

pub begun-IsRecorded :
    (w : Shared)
    → IsConsistent w.store
    → w.store.total_bytes ≤ w.store.max_bytes
    → w.toggles ≡ []
    → IsRecorded (record w { store = record_mode_change w.manager.motion_only w.store })
begun-IsRecorded w h fits none_yet = record {
  consistent = record_mode_change-IsConsistent w.manager.motion_only w.store h;
  fits = unfold record_mode_change in fits;
  mode =
      subst
        (λ toggles.
          IsLogged toggles w.manager.motion_only
            (last_mode false (record_mode_change w.manager.motion_only w.store).db.mode_changes))
        (sym none_yet) (last_mode-record_mode_change w.manager.motion_only w.store);
}

-- The run after it has logged the mode.
abbrev pub begun : Shared → Collecting
begun w = record {
  shared = record w { store = record_mode_change w.manager.motion_only w.store };
  saved = 0;
  errors = 0;
  raised = false;
}
