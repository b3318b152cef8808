-- ===== src/Tests/Spans.antt =====
-- The coverage of a store (compute/collection/store.py) that was in motion-only mode for a while.
use cat_automation.Prelude.{
  ℕ, ◌≡◌, refl, true, false, none, some, List, [], ◌∷◌, ◌&&◌, ◌||◌, leb, sort_by, arith,
}
use cat_automation.Spans.Coalesce.{IdSpan, coalesce_id_spans}
use cat_automation.Spans.Union.{covers, coalesce_id_spans-covers}
use cat_automation.Spans.MotionOnly.{ModeChange, at_id_le, motion_only_spans}
use cat_automation.Spans.Coverage.{mode_at, switched_on_at, in_window, motion_only_spans-covers}

abbrev span : ℕ → ℕ → IdSpan
span lo hi = record { start_id = lo; end_id = hi }

abbrev overlapping : List IdSpan
overlapping = span 7 9 ∷ span 1 3 ∷ span 2 5 ∷ []

overlapping_merged : coalesce_id_spans overlapping ≡ span 1 5 ∷ span 7 9 ∷ []
unfolding coalesce_id_spans
overlapping_merged = refl

coalesce_id_spans-covers_example : covers (coalesce_id_spans overlapping) 4 ≡ covers overlapping 4
coalesce_id_spans-covers_example = coalesce_id_spans-covers overlapping 4

-- Motion-only capture from frame 10 to frame 20, and from frame 40 on.
abbrev changes : List ModeChange
changes =
    record { at_id = 10; motion_only = true }
    ∷ record { at_id = 20; motion_only = false }
    ∷ record { at_id = 40; motion_only = true }
    ∷ []

changes_spans :
    motion_only_spans changes (span 18 25 ∷ []) 3 50 (some 2) none
    ≡ span 2 3 ∷ span 10 25 ∷ span 40 50 ∷ []
unfolding motion_only_spans coalesce_id_spans
changes_spans = refl

motion_only_spans-covers_example :
    covers (motion_only_spans changes (span 18 25 ∷ []) 3 50 (some 2) none) 24
    ≡ in_window (some 2) none 24
      && ((mode_at false (sort_by at_id_le changes) 24 || switched_on_at 24 changes)
          || (covers (span 18 25 ∷ []) 24 || leb 1 24 && leb 24 3))
motion_only_spans-covers_example =
    motion_only_spans-covers changes (span 18 25 ∷ []) 3 50 (some 2) none 24 (omega arith)
