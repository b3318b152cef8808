-- ===== src/Spans/Coverage.antt =====
-- The ids that the spans of `Store.motion_only_spans` (compute/collection/store.py) hold.
use cat_automation.Prelude.{
  ℕ, ◌≤◌, ◌≡◌, refl, Bool, true, false, inl, inr, Option, none, some, List, [], ◌∷◌, ◌++◌, ◌&&◌,
  ◌||◌, ◌==◌, ltb, leb, if◌then◌else◌, any, any-append, any-sort_by, sort_by, Sorted, SortedFrom,
  sort_by-Sorted, Bool-cases, leb→le, arith,
}
use cat_automation.Spans.Coalesce.{IdSpan}
use cat_automation.Spans.Union.{holds, covers, coalesce_id_spans-covers}
use cat_automation.Spans.MotionOnly.{
  ModeChange, at_id_le, change_points, clip_span, segment_end, on_spans, clip_all, stripped_spans,
  fold_stripped, store_end_of, motion_only_spans,
}

abbrev from_since : Option ℕ → ℕ → Bool
from_since none i = true
from_since (some since) i = leb since i

abbrev to_until : Option ℕ → ℕ → Bool
to_until none i = true
to_until (some until) i = leb i until

-- Whether the window `[since_id, until_id]` holds the id.
abbrev pub in_window : Option ℕ → Option ℕ → ℕ → Bool
in_window since_id until_id i = from_since since_id i && to_until until_id i

-- The capture mode in which frame `i` was collected: that of the last change before it.
unfoldable pub mode_at : Bool → List ModeChange → ℕ → Bool
mode_at state [] i = state
mode_at state (row ∷ rows) i =
    let later = mode_at row.motion_only rows i in if ltb row.at_id i then later else state

-- Whether `i` was the newest frame when motion-only capture was switched on.
abbrev pub switched_on_at : ℕ → List ModeChange → Bool
switched_on_at i rows = any (λ row. row.motion_only && row.at_id == i) rows

covers-clip_span :
    (since_id until_id : Option ℕ) (s : IdSpan) (i : ℕ)
    → covers (clip_span since_id until_id s) i ≡ in_window since_id until_id i && holds i s
unfolding clip_span
covers-clip_span since_id until_id s i = ground arith

covers-clip_all :
    (since_id until_id : Option ℕ) (spans : List IdSpan) (i : ℕ)
    → covers (clip_all since_id until_id spans) i ≡ in_window since_id until_id i && covers spans i
unfolding clip_all
covers-clip_all since_id until_id [] i = ground arith
covers-clip_all since_id until_id (s ∷ spans) i = ground (
  arith,
  any-append (holds i) (clip_span since_id until_id s) (clip_all since_id until_id spans),
  covers-clip_span since_id until_id s i,
  covers-clip_all since_id until_id spans i,
)

-- Whether an ON segment of the changes holds the id.
segment_cover : ℕ → List ModeChange → ℕ → Bool
segment_cover store_end [] i = false
segment_cover store_end (c ∷ changes) i =
    c.motion_only && holds i (record { start_id = c.at_id; end_id = segment_end store_end changes })
    || segment_cover store_end changes i

covers-on_spans :
    (since_id until_id : Option ℕ) (store_end : ℕ) (changes : List ModeChange) (i : ℕ)
    → covers (on_spans since_id until_id store_end changes) i
      ≡ in_window since_id until_id i && segment_cover store_end changes i
unfolding on_spans segment_cover
covers-on_spans since_id until_id store_end [] i = ground arith
covers-on_spans since_id until_id store_end (c ∷ changes) i =
    let s : IdSpan = record { start_id = c.at_id; end_id = segment_end store_end changes } in
    ground (
      arith,
      any-append (holds i) (if c.motion_only then clip_span since_id until_id s else [])
          (on_spans since_id until_id store_end changes),
      covers-clip_span since_id until_id s i,
      covers-on_spans since_id until_id store_end changes i,
    )

-- The changes stand at ids from `k` on, in order.
abbrev ChangesFrom : ℕ → List ModeChange → Type 0
ChangesFrom k [] = Unit
ChangesFrom k (c ∷ changes) = (k ≤ c.at_id) × ChangesFrom c.at_id changes

ChangesFrom-le :
    (k j : ℕ) (changes : List ModeChange) → k ≤ j → ChangesFrom j changes → ChangesFrom k changes
ChangesFrom-le k j [] h c = tt
ChangesFrom-le k j (r ∷ changes) h c = (omega arith, c.1)

Sorted-ChangesFrom :
    (a : ModeChange) (rows : List ModeChange)
    → SortedFrom at_id_le a rows
    → ChangesFrom a.at_id rows
Sorted-ChangesFrom a [] s = tt
Sorted-ChangesFrom a (b ∷ rows) s = (leb→le a.at_id b.at_id s.0, Sorted-ChangesFrom b rows s.1)

mode_at_early :
    (state : Bool) (rows : List ModeChange) (k i : ℕ)
    → ChangesFrom k rows
    → i ≤ k
    → mode_at state rows i ≡ state
unfolding mode_at
mode_at_early state [] k i c h = refl
mode_at_early state (r ∷ rows) k i c h = ground (arith, c.0)

-- The segment of `state` that is open since `s`, and the ON segments after it.
abbrev open_cover : ℕ → Bool → ℕ → List ModeChange → ℕ → Bool
open_cover store_end state s rows i =
    let changes = change_points (some state) rows in
    state && (leb s i && leb i (segment_end store_end changes)) || segment_cover store_end changes i

open_cover_lem :
    (store_end : ℕ) (state : Bool) (s : ℕ) (rows : List ModeChange) (i : ℕ)
    → i ≤ store_end
    → ChangesFrom s rows
    → open_cover store_end state s rows i
      ≡ (ltb s i && mode_at state rows i || (state && s == i || switched_on_at i rows))
unfolding change_points segment_cover segment_end mode_at
open_cover_lem store_end state s [] i h c = ground arith
open_cover_lem store_end true s (r ∷ rows) i h c = elim (Bool-cases r.motion_only) [
  | inl on ↦ ground (
    arith,
    on,
    open_cover_lem store_end true s rows i h (ChangesFrom-le s r.at_id rows c.0 c.1),
    mode_at_early true rows r.at_id i c.1,
  )
  | inr off ↦ ground (
    arith,
    off,
    open_cover_lem store_end false r.at_id rows i h c.1,
    mode_at_early false rows r.at_id i c.1,
  )
]
open_cover_lem store_end false s (r ∷ rows) i h c = elim (Bool-cases r.motion_only) [
  | inl on ↦ ground (
    arith,
    on,
    open_cover_lem store_end true r.at_id rows i h c.1,
    mode_at_early true rows r.at_id i c.1,
  )
  | inr off ↦ ground (
    arith,
    off,
    open_cover_lem store_end false s rows i h (ChangesFrom-le s r.at_id rows c.0 c.1),
    mode_at_early false rows r.at_id i c.1,
  )
]

changes_cover :
    (store_end : ℕ) (rows : List ModeChange) (i : ℕ)
    → i ≤ store_end
    → Sorted at_id_le rows
    → segment_cover store_end (change_points none rows) i
      ≡ mode_at false rows i || switched_on_at i rows
unfolding change_points segment_cover mode_at
changes_cover store_end [] i h s = refl
changes_cover store_end (r ∷ rows) i h s =
    ground
      (arith, open_cover_lem store_end r.motion_only r.at_id rows i h (Sorted-ChangesFrom r rows s))

covers-fold_stripped :
    (since_id until_id : Option ℕ) (spans stripped : List IdSpan) (i : ℕ)
    → covers (fold_stripped since_id until_id spans stripped) i
      ≡ covers spans i || in_window since_id until_id i && covers stripped i
unfolding fold_stripped
covers-fold_stripped since_id until_id spans [] i = ground arith
covers-fold_stripped since_id until_id spans (s ∷ stripped) i =
    let clipped = clip_all since_id until_id (s ∷ stripped) in
    ground (
      arith,
      coalesce_id_spans-covers (spans ++ clipped) i,
      any-append (holds i) spans clipped,
      covers-clip_all since_id until_id (s ∷ stripped) i,
    )

covers-stripped_spans :
    (purge_rows : List IdSpan) (evicted_through i : ℕ)
    → covers (stripped_spans purge_rows evicted_through) i
      ≡ covers purge_rows i || leb 1 i && leb i evicted_through
unfolding stripped_spans
covers-stripped_spans purge_rows evicted_through i = ground (
  arith,
  any-append (holds i) purge_rows (
      if ltb 0 evicted_through then record { start_id = 1; end_id = evicted_through } ∷ [] else []),
)

at_id_le_total : (a b : ModeChange) → at_id_le a b ≡ false → at_id_le b a ≡ true
at_id_le_total a b h = ground arith

-- Of the ids up to the end of the store, the returned spans hold those in the window that were
-- collected while motion-only capture was on, or were the newest frame when it was switched on, or
-- lie in a purge span, or at or below the eviction frontier.
pub motion_only_spans-covers :
    (rows : List ModeChange) (purge_rows : List IdSpan) (evicted_through max_id : ℕ)
    (since_id until_id : Option ℕ) (i : ℕ)
    → i ≤ store_end_of until_id max_id
    → covers (motion_only_spans rows purge_rows evicted_through max_id since_id until_id) i
      ≡ in_window since_id until_id i
        && ((mode_at false (sort_by at_id_le rows) i || switched_on_at i rows)
            || (covers purge_rows i || leb 1 i && leb i evicted_through))
unfolding motion_only_spans
motion_only_spans-covers rows purge_rows evicted_through max_id since_id until_id i h =
    let sorted = sort_by at_id_le rows in
    let changes = change_points none sorted in
    let store_end = store_end_of until_id max_id in
    ground (
      arith,
      covers-fold_stripped since_id until_id (on_spans since_id until_id store_end changes)
          (stripped_spans purge_rows evicted_through) i,
      covers-on_spans since_id until_id store_end changes i,
      covers-stripped_spans purge_rows evicted_through i,
      changes_cover store_end sorted i h (sort_by-Sorted at_id_le at_id_le_total rows),
      any-sort_by at_id_le (λ (row : ModeChange). row.motion_only && row.at_id == i) rows,
    )
