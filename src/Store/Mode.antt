-- ===== src/Store/Mode.antt =====
-- `Store.record_mode_change` (compute/collection/store.py), and what the coverage reads back from it.
use cat_automation.Prelude.{
  ℕ, ◌≡◌, ◌≤◌, refl, sym, ap, ◌∙◌, Bool, false, List, [], ◌∷◌, ◌++◌, ltb, if◌then◌else◌, sort_by,
  sort_by-eq_self, Sorted, SortedFrom, All, arith,
}
use cat_automation.Spans.MotionOnly.{ModeChange, at_id_le}
use cat_automation.Spans.Coverage.{mode_at}
use cat_automation.Store.Tables.{Store, max_id}

-- A row in the table's order of insertion; the time of the change is left out.
unfoldable pub record_mode_change : Bool → Store → Store
unfolding max_id
record_mode_change motion_only s =
    let change : ModeChange = record { at_id = max_id s.db.frames; motion_only = motion_only } in
    record s { db = record (s.db) { mode_changes = s.db.mode_changes ++ change ∷ [] } }

SortedFrom-snoc :
    (c : ModeChange) (r : ModeChange) (rows : List ModeChange)
    → r.at_id ≤ c.at_id
    → SortedFrom at_id_le r rows
    → All (λ row. row.at_id ≤ c.at_id) rows
    → SortedFrom at_id_le r (rows ++ c ∷ [])
SortedFrom-snoc c r [] h s a = (ground (arith, h), tt)
SortedFrom-snoc c r (row ∷ rows) h s a = (s.0, SortedFrom-snoc c row rows a.0 s.1 a.1)

Sorted-snoc :
    (c : ModeChange) (rows : List ModeChange)
    → Sorted at_id_le rows
    → All (λ row. row.at_id ≤ c.at_id) rows
    → Sorted at_id_le (rows ++ c ∷ [])
Sorted-snoc c [] s a = tt
Sorted-snoc c (row ∷ rows) s a = SortedFrom-snoc c row rows a.0 s a.1

mode_at-snoc :
    (c : ModeChange) (state : Bool) (rows : List ModeChange) (i : ℕ)
    → All (λ row. row.at_id ≤ c.at_id) rows
    → mode_at state (rows ++ c ∷ []) i
      ≡ (if ltb c.at_id i then c.motion_only else mode_at state rows i)
unfolding mode_at
mode_at-snoc c state [] i a = refl
mode_at-snoc c state (row ∷ rows) i a =
    ground (arith, a.0, mode_at-snoc c row.motion_only rows i a.1)

-- Where the earlier changes stand in the order of their ids, none of which is above the newest frame:
-- a recorded change is the mode of all ids after the newest frame, and the mode of the others is the
-- one that it was.
pub record_mode_change-mode_at :
    (motion_only : Bool) (s : Store) (i : ℕ)
    → Sorted at_id_le s.db.mode_changes
    → All (λ row. row.at_id ≤ max_id s.db.frames) s.db.mode_changes
    → mode_at false (sort_by at_id_le (record_mode_change motion_only s).db.mode_changes) i ≡ (
        if ltb (max_id s.db.frames) i
        then motion_only
        else mode_at false (sort_by at_id_le s.db.mode_changes) i)
unfolding record_mode_change
record_mode_change-mode_at motion_only s i sorted below =
    let change : ModeChange = record { at_id = max_id s.db.frames; motion_only = motion_only } in
    let rows = s.db.mode_changes in
    ap (λ l. mode_at false l i)
      (sort_by-eq_self at_id_le (rows ++ change ∷ []) (Sorted-snoc change rows sorted below))
    ∙ mode_at-snoc change false rows i below
    ∙ ap (λ l. if ltb change.at_id i then motion_only else mode_at false l i)
        (sym (sort_by-eq_self at_id_le rows sorted))
