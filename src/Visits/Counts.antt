-- ===== src/Visits/Counts.antt =====
-- The visit counts of a scorecard, in `Store` of compute/collection/store.py. Timestamps are
-- milliseconds and never negative. An index into an empty list, which Python refuses with an
-- IndexError, is `none`.
use cat_automation.Prelude.{
  ℕ, suc, ◌+◌, ◌-◌, Bool, true, false, Option, none, some, List, [], ◌∷◌, ltb, leb, length,
  if◌then◌else◌, get_elem?, last_or, sort_by,
}
use cat_automation.Visits.Split.{gap_split}

abbrev pub visit_gap_ms : ℕ
visit_gap_ms = 2000

abbrev pub visit_window_ms : ℕ
visit_window_ms = 3000

pub record Span : Type 0 where
  pub lo_ts : ℕ
  pub hi_ts : ℕ

-- A row that a scorecard judges: `present` is none where SQL could not evaluate the verdict.
pub record Row : Type 0 where
  pub recv_ts : ℕ
  pub src_motion : Bool
  pub present : Option Bool

unfoldable pub is_present : Row → Bool
is_present r = elim r.present [ some true ↦ true | _ ↦ false ]

-- Python's `bisect.bisect_left` on an ascending list: the number of elements below `x`.
unfoldable pub bisect_left : List ℕ → ℕ → ℕ
bisect_left [] x = 0
bisect_left (a ∷ rest) x = if ltb a x then suc (bisect_left rest x) else 0

-- The truncated `lo` serves as well as a negative one: no timestamp lies below either.
unfoldable pub visit_caught : ℕ → ℕ → List ℕ → Bool
unfolding bisect_left
visit_caught lo_ts hi_ts motion_ts =
    let lo = lo_ts - visit_window_ms in
    let hi = hi_ts + visit_window_ms in
    elim (get_elem? motion_ts (bisect_left motion_ts lo)) [ none ↦ false | some m ↦ leb m hi ]

-- `(run[0], run[-1])` for each run.
unfoldable pub run_spans : List (List ℕ) → Option (List Span)
run_spans [] = some []
run_spans ([] ∷ runs) = none
run_spans ((ts ∷ run) ∷ runs) = elim (run_spans runs) [
  | none ↦ none
  | some spans ↦ some (record { lo_ts = ts; hi_ts = last_or ts run } ∷ spans)
]

unfoldable pub split_into_visits : List ℕ → Option (List Span)
unfolding run_spans
split_into_visits present_ts = run_spans (gap_split visit_gap_ms (λ ts. ts) present_ts)

-- `sorted(r[0] for r in interesting if test(r))`
unfoldable pub timestamps : (Row → Bool) → List Row → List ℕ
timestamps test [] = []
timestamps test (r ∷ rows) =
    if test r then r.recv_ts ∷ timestamps test rows else timestamps test rows

unfoldable pub present_ts : List Row → List ℕ
unfolding timestamps is_present
present_ts rows = sort_by leb (timestamps is_present rows)

unfoldable pub motion_ts : List Row → List ℕ
unfolding timestamps
motion_ts rows = sort_by leb (timestamps (λ r. r.src_motion) rows)

unfoldable pub count_caught : List ℕ → List Span → ℕ
count_caught ms [] = 0
count_caught ms (s ∷ spans) =
    if visit_caught s.lo_ts s.hi_ts ms then suc (count_caught ms spans) else count_caught ms spans

-- The early return on no present frame, and else the two counts.
unfoldable pub counts_of : List ℕ → List Row → Option (ℕ × ℕ)
unfolding count_caught
counts_of [] rows = some (0, 0)
counts_of (ts ∷ rest) rows = elim (split_into_visits (ts ∷ rest)) [
  | none ↦ none
  | some spans ↦ some (length spans, count_caught (motion_ts rows) spans)
]

unfoldable pub cluster_visits : List Row → Option (ℕ × ℕ)
unfolding counts_of
cluster_visits interesting = counts_of (present_ts interesting) interesting

-- The `totals` and `caughts` of the two buckets.
pub record Buckets : Type 0 where
  pub day_total : ℕ
  pub day_caught : ℕ
  pub night_total : ℕ
  pub night_caught : ℕ

unfoldable pub bucket_step : Bool → Bool → Buckets → Buckets
bucket_step true caught b = record b {
  night_total = b.night_total + 1;
  night_caught = if caught then b.night_caught + 1 else b.night_caught;
}
bucket_step false caught b = record b {
  day_total = b.day_total + 1;
  day_caught = if caught then b.day_caught + 1 else b.day_caught;
}

abbrev pub no_visits : Buckets
no_visits = record { day_total = 0; day_caught = 0; night_total = 0; night_caught = 0 }

-- The `for` loop over the spans.
unfoldable pub bucket_loop : (ℕ → Bool) → List ℕ → Buckets → List Span → Buckets
unfolding bucket_step
bucket_loop is_night ms b [] = b
bucket_loop is_night ms b (s ∷ spans) =
    bucket_loop is_night ms (bucket_step (is_night s.lo_ts) (visit_caught s.lo_ts s.hi_ts ms) b)
      spans

unfoldable pub buckets_of : (ℕ → Bool) → List ℕ → List Row → Option Buckets
unfolding bucket_loop
buckets_of is_night [] rows = some no_visits
buckets_of is_night (ts ∷ rest) rows = elim (split_into_visits (ts ∷ rest)) [
  | none ↦ none
  | some spans ↦ some (bucket_loop is_night (motion_ts rows) no_visits spans)
]

unfoldable pub cluster_visits_split : (ℕ → Bool) → List Row → Option Buckets
unfolding buckets_of
cluster_visits_split is_night interesting = buckets_of is_night (present_ts interesting) interesting
