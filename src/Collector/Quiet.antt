-- ===== src/Collector/Quiet.antt =====
-- A run of the collector (compute/collection/collector.py) that no call reaches.
use cat_automation.Prelude.{
  ℕ, suc, ◌+◌, ◌≡◌, ◌≤◌, refl, ap, sym, subst, ◌∙◌, Bool, true, false, Option, none, some, List, [],
  ◌∷◌, ◌&&◌, not, filter, All, length, inl, inr, Bool-cases, if◌then◌else◌, arith,
}
use cat_automation.Store.Tables.{Store}
use cat_automation.Store.Add.{add}
use cat_automation.Store.Atomic.{IsConsistent}
use cat_automation.Collector.Manager.{CollectorManager, is_stopped, Shared, answer_all}
use cat_automation.Collector.Run.{
  Arrival, Collecting, count_result, take_frame, collect, run_collector,
}
use cat_automation.Collector.Logged.{IsRecorded}
use cat_automation.Collector.Recorded.{passes, begun, begun-IsRecorded, take_frame-IsRecorded}

count_result-manager :
    (stats_raise : Bool) (r : Store × Option ℕ) (c : Collecting)
    → (count_result stats_raise r c).shared.manager ≡ c.shared.manager
unfolding count_result
count_result-manager stats_raise (t, none) c = refl
count_result-manager stats_raise (t, some new_id) c = refl

take_frame-manager :
    (a : Arrival) (c : Collecting) → (take_frame a c).shared.manager ≡ c.shared.manager
unfolding take_frame
take_frame-manager a c = elim (Bool-cases (c.shared.manager.motion_only && not a.capture.motion)) [
  | inl skips ↦ rw skips refl
  | inr keeps ↦
      rw keeps (count_result-manager a.stats_raise (add a.fault a.capture c.shared.store) c)
]

counted_step :
    (keep : Bool) (n sum sum' total : ℕ)
    → sum' ≡ (if keep then suc sum else sum)
    → total ≡ n + sum'
    → total ≡ (if keep then suc n else n) + sum
counted_step true n sum sum' total h k = omega arith
counted_step false n sum sum' total h k = omega arith

filter_count :
    (keep : Arrival → Bool) (a : Arrival) (arrivals : List Arrival)
    → length (filter keep (a ∷ arrivals))
      ≡ (if keep a then suc (length (filter keep arrivals)) else length (filter keep arrivals))
filter_count keep a arrivals = ground arith

collect_goes_on :
    (event : ℕ) (a : Arrival) (arrivals : List Arrival) (c : Collecting)
    → a.calls ≡ []
    → is_stopped event c.shared.manager ≡ false
    → (take_frame a c).raised ≡ false
    → collect event (a ∷ arrivals) c ≡ collect event arrivals (take_frame a c)
unfolding collect answer_all
collect_goes_on event a arrivals c quiet on fine =
    subst
      (λ (w : Shared).
        let t = take_frame a (record c { shared = w }) in
        (if is_stopped event w.manager
          then record c { shared = w }
          else if t.raised
          then t
          else collect event arrivals t)
        ≡ collect event arrivals (take_frame a c))
      (sym (ap (λ calls. answer_all calls c.shared) quiet))
      (ap
          (λ b.
            if b
            then c
            else if (take_frame a c).raised
            then take_frame a c
            else collect event arrivals (take_frame a c))
          on
        ∙ ap (λ b. if b then take_frame a c else collect event arrivals (take_frame a c)) fine)

-- No call lands before the frame, and `store.stats()` does not raise after it.
abbrev pub IsQuiet : Arrival → Type 0
IsQuiet a = (a.calls ≡ []) × (a.stats_raise ≡ false)

collect_quiet :
    (event : ℕ) (arrivals : List Arrival) (m : CollectorManager) (c : Collecting)
    → IsRecorded c.shared
    → c.raised ≡ false
    → c.shared.manager ≡ m
    → is_stopped event m ≡ false
    → All IsQuiet arrivals
    → let c' = collect event arrivals c in
      (c'.shared.manager ≡ m)
      × (c'.raised ≡ false)
      × (c'.saved + c'.errors
          ≡ length (filter (passes m.motion_only) arrivals) + (c.saved + c.errors))
unfolding collect
collect_quiet event [] m c h fine same on quiet = (same, fine, omega arith)
collect_quiet event (a ∷ arrivals) m c h fine same on quiet =
    let t = take_frame a c in
    let (recorded, step, calm) = take_frame-IsRecorded a c h fine in
    let fine' : t.raised ≡ false = calm quiet.0.1 in
    let (kept, ends, counts) =
      collect_quiet event arrivals m t recorded fine' (take_frame-manager a c ∙ same) on quiet.1 in
    let step' =
      subst
        (λ (n : CollectorManager).
          t.saved + t.errors
          ≡ (if passes n.motion_only a then suc (c.saved + c.errors) else c.saved + c.errors))
        same step in
    subst
      (λ (c' : Collecting).
        (c'.shared.manager ≡ m)
        × (c'.raised ≡ false)
        × (c'.saved + c'.errors
            ≡ length (filter (passes m.motion_only) (a ∷ arrivals)) + (c.saved + c.errors)))
      (sym (collect_goes_on event a arrivals c quiet.0.0 (ap (is_stopped event) same ∙ on) fine'))
      (
        kept,
        ends,
        counted_step (passes m.motion_only a) (length (filter (passes m.motion_only) arrivals))
              (c.saved + c.errors) (t.saved + t.errors) _ step' counts
            ∙ ap (λ n. n + (c.saved + c.errors))
                (sym (filter_count (passes m.motion_only) a arrivals)),
      )

-- For a store with ascending ids, counters that are those of its rows, the persisted frontier in memory and a
-- total that fits the cap: a run whose stop event is not set, that no call reaches, whose first log of the mode
-- does not raise and for which `store.stats()` does not raise, ends only with the stream, however many of the
-- frames `add` fails for: every frame that the capture mode does not leave out is counted as saved or as
-- failed, the run does not raise, and the manager is as it was.
pub run_collector_quiet :
    (event : ℕ) (arrivals : List Arrival) (w : Shared)
    → IsConsistent w.store
    → w.store.total_bytes ≤ w.store.max_bytes
    → w.toggles ≡ []
    → is_stopped event w.manager ≡ false
    → All IsQuiet arrivals
    → let c = run_collector false event arrivals w in
      (c.shared.manager ≡ w.manager)
      × (c.raised ≡ false)
      × (c.saved + c.errors ≡ length (filter (passes w.manager.motion_only) arrivals))
unfolding run_collector
run_collector_quiet event arrivals w h fits none_yet on quiet =
    let (same, ends, counts) =
      collect_quiet event arrivals w.manager (begun w) (begun-IsRecorded w h fits none_yet) refl
        refl on quiet in
    (same, ends, omega arith)
