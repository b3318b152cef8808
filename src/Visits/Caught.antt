-- ===== src/Visits/Caught.antt =====
-- What the visit counts of `Store._cluster_visits` and `Store._cluster_visits_split`
-- (compute/collection/store.py) say of the rows that they are taken from.
use cat_automation.Prelude.{
  Sorted, SortedFrom, sort_by-Sorted, ℕ, suc, ◌+◌, ◌-◌, ◌≡◌, refl, ap, ◌∙◌, inl, inr, Bool, true,
  false, ◌&&◌, some, List, [], ◌∷◌, flatten, ltb, leb, if◌then◌else◌, length, last_or, any, All,
  Sorted, SortedFrom, sort_by-Sorted, any-sort_by, Bool-cases, arith,
}
use cat_automation.Visits.Split.{gap_split}
use cat_automation.Visits.Runs.{
  IsNonempty, Chronological, ChronologicalFrom, IsClustering, gap_split-IsNonempty,
  gap_split-IsClustering,
}
use cat_automation.Visits.Counts.{
  visit_gap_ms, visit_window_ms, Span, Row, is_present, visit_caught, run_spans, split_into_visits,
  timestamps, present_ts, motion_ts, count_caught, counts_of, cluster_visits, Buckets, bucket_step,
  no_visits, bucket_loop, buckets_of, cluster_visits_split,
}

Sorted-tail {ℓ} :
    {A : Type ℓ} (le : A → A → Bool) (a : A) (xs : List A) → SortedFrom le a xs → Sorted le xs
Sorted-tail le a [] s = tt
Sorted-tail le a (x ∷ xs) s = s.1

-- Whether `m` lies at most the window before `lo` or after `hi`.
abbrev pub near : ℕ → ℕ → ℕ → Bool
near lo hi m = leb lo (m + visit_window_ms) && leb m (hi + visit_window_ms)

any_late :
    (lo hi m : ℕ) (ms : List ℕ)
    → SortedFrom leb m ms
    → leb m (hi + visit_window_ms) ≡ false
    → any (near lo hi) ms ≡ false
any_late lo hi m [] s e = refl
any_late lo hi m (n ∷ ms) s e =
    let late : leb n (hi + visit_window_ms) ≡ false = ground (arith, s.0) in
    ground (arith, any_late lo hi n ms s.1 late)

-- On ascending motion timestamps, binary search and one comparison do the work of a scan of all
-- of them.
visit_caught-eq-any :
    (lo hi : ℕ) (ms : List ℕ) → Sorted leb ms → visit_caught lo hi ms ≡ any (near lo hi) ms
unfolding visit_caught
visit_caught-eq-any lo hi [] s = refl
visit_caught-eq-any lo hi (m ∷ ms) s = elim (Bool-cases (ltb m (lo - visit_window_ms))) [
  | inl early ↦ let ih = visit_caught-eq-any lo hi ms (Sorted-tail leb m ms s) in ground (arith, ih)
  | inr late ↦ elim (Bool-cases (leb m (hi + visit_window_ms))) [
    | inl inside ↦ ground arith
    | inr after ↦ ground (arith, any_late lo hi m ms s after)
  ]
]

-- Whether the gate saw motion at most the window before the run's first frame or after its last.
pub saw_motion : List Row → ℕ → ℕ → Bool
saw_motion rows lo hi = any (λ r. r.src_motion && near lo hi r.recv_ts) rows

any-timestamps :
    (p : ℕ → Bool) (rows : List Row)
    → any p (timestamps (λ r. r.src_motion) rows) ≡ any (λ r. r.src_motion && p r.recv_ts) rows
unfolding timestamps
any-timestamps p [] = refl
any-timestamps p (r ∷ rows) = ground (arith, any-timestamps p rows)

leb_total : (a b : ℕ) → leb a b ≡ false → leb b a ≡ true
leb_total a b h = ground arith

visit_caught-eq-saw_motion :
    (rows : List Row) (lo hi : ℕ) → visit_caught lo hi (motion_ts rows) ≡ saw_motion rows lo hi
unfolding saw_motion motion_ts
visit_caught-eq-saw_motion rows lo hi =
    visit_caught-eq-any lo hi (motion_ts rows)
      (sort_by-Sorted leb leb_total (timestamps (λ r. r.src_motion) rows))
    ∙ any-sort_by leb (near lo hi) (timestamps (λ r. r.src_motion) rows)
    ∙ any-timestamps (near lo hi) rows

-- The runs that hold a frame and near which the gate saw motion.
pub caught_runs : List Row → List (List ℕ) → ℕ
caught_runs rows [] = 0
caught_runs rows ([] ∷ runs) = caught_runs rows runs
caught_runs rows ((ts ∷ run) ∷ runs) =
    if saw_motion rows ts (last_or ts run)
    then suc (caught_runs rows runs)
    else caught_runs rows runs

run_spans_counts :
    (rows : List Row) (runs : List (List ℕ))
    → All (IsNonempty visit_gap_ms (λ ts. ts)) runs
    → (spans : List Span) × (run_spans runs ≡ some spans)
      × (length spans ≡ length runs)
      × (count_caught (motion_ts rows) spans ≡ caught_runs rows runs)
unfolding run_spans count_caught caught_runs
run_spans_counts rows [] a = ([], refl, refl, refl)
run_spans_counts rows ([] ∷ runs) a = absurd a.0
run_spans_counts rows ((ts ∷ run) ∷ runs) a =
    let (spans, e, n, c) = run_spans_counts rows runs a.1 in
    (
      record { lo_ts = ts; hi_ts = last_or ts run } ∷ spans,
      rw e,
      ap suc n,
      rw (visit_caught-eq-saw_motion rows ts (last_or ts run), c),
    )

split_into_visits_lem :
    (rows : List Row) (ts : List ℕ)
    → let runs = gap_split visit_gap_ms (λ t. t) ts in
      (spans : List Span) × (split_into_visits ts ≡ some spans)
      × (length spans ≡ length runs)
      × (count_caught (motion_ts rows) spans ≡ caught_runs rows runs)
unfolding split_into_visits
split_into_visits_lem rows ts =
    run_spans_counts rows (gap_split visit_gap_ms (λ t. t) ts)
      (gap_split-IsNonempty visit_gap_ms (λ t. t) ts)

Sorted-Chronological : (ts : List ℕ) → Sorted leb ts → Chronological visit_gap_ms (λ t. t) ts
Sorted-Chronological [] s = tt
Sorted-Chronological (t ∷ ts) s = chronological_from t ts s
  where
    chronological_from :
        (t : ℕ) (ts : List ℕ) → SortedFrom leb t ts → ChronologicalFrom visit_gap_ms (λ t. t) t ts
    chronological_from t [] s = tt
    chronological_from t (u ∷ ts) s = (ground (arith, s.0), chronological_from u ts s.1)

present_ts-Chronological : (rows : List Row) → Chronological visit_gap_ms (λ t. t) (present_ts rows)
unfolding present_ts
present_ts-Chronological rows =
    Sorted-Chronological (present_ts rows)
      (sort_by-Sorted leb leb_total (timestamps is_present rows))

counts_of_lem :
    (rows : List Row) (ts : List ℕ)
    → Chronological visit_gap_ms (λ t. t) ts
    → (runs : List (List ℕ)) × (flatten runs ≡ ts)
      × IsClustering visit_gap_ms (λ t. t) runs
      × (counts_of ts rows ≡ some (length runs, caught_runs rows runs))
unfolding counts_of caught_runs flatten
counts_of_lem rows [] c = ([], refl, record { linked = tt; apart = tt }, refl)
counts_of_lem rows (t ∷ ts) c =
    let runs = gap_split visit_gap_ms (λ t. t) (t ∷ ts) in
    let (whole, clustering) = gap_split-IsClustering visit_gap_ms (λ t. t) (t ∷ ts) c in
    let (spans, e, n, same) = split_into_visits_lem rows (t ∷ ts) in
    (runs, whole, clustering, rw (e, counts_of) (cc (n, same)))

-- The present frames in time order fall into runs, cut wherever two neighbours lie more than
-- `visit_gap_ms` apart. No index is out of range, and the two counts are the runs and those runs
-- near which, by a scan of all rows, the gate saw motion.
pub cluster_visits_lem :
    (rows : List Row)
    → (runs : List (List ℕ)) × (flatten runs ≡ present_ts rows)
      × IsClustering visit_gap_ms (λ t. t) runs
      × (cluster_visits rows ≡ some (length runs, caught_runs rows runs))
unfolding cluster_visits
cluster_visits_lem rows = counts_of_lem rows (present_ts rows) (present_ts-Chronological rows)

abbrev totals : Buckets → ℕ × ℕ
totals b = (b.day_total + b.night_total, b.day_caught + b.night_caught)

totals-bucket_loop :
    (is_night : ℕ → Bool) (ms : List ℕ) (b : Buckets) (spans : List Span)
    → totals (bucket_loop is_night ms b spans)
      ≡ ((totals b).0 + length spans, (totals b).1 + count_caught ms spans)
unfolding bucket_loop count_caught bucket_step
totals-bucket_loop is_night ms b [] = ground arith
totals-bucket_loop is_night ms b (s ∷ spans) =
    let caught = visit_caught s.lo_ts s.hi_ts ms in
    ground (arith, totals-bucket_loop is_night ms (bucket_step (is_night s.lo_ts) caught b) spans)

buckets_of-totals :
    (is_night : ℕ → Bool) (rows : List Row) (ts : List ℕ)
    → (b : Buckets) × (buckets_of is_night ts rows ≡ some b) × (counts_of ts rows ≡ some (totals b))
unfolding counts_of buckets_of
buckets_of-totals is_night rows [] = (no_visits, refl, refl)
buckets_of-totals is_night rows (t ∷ ts) =
    let (spans, e, _, _) = split_into_visits_lem rows (t ∷ ts) in
    (
      bucket_loop is_night (motion_ts rows) no_visits spans,
      rw (e, buckets_of),
      rw (e, counts_of)
          (ground (arith, totals-bucket_loop is_night (motion_ts rows) no_visits spans)),
    )

-- However night is told from day, the two buckets add up to the counts without buckets: each visit,
-- and each caught visit, falls into one bucket.
pub cluster_visits_split-totals :
    (is_night : ℕ → Bool) (rows : List Row)
    → (b : Buckets) × (cluster_visits_split is_night rows ≡ some b)
      × (cluster_visits rows ≡ some (totals b))
unfolding cluster_visits cluster_visits_split
cluster_visits_split-totals is_night rows = buckets_of-totals is_night rows (present_ts rows)
