-- ===== src/Visits/Settled.antt =====
-- `Store.closed_visits` (compute/collection/store.py) before and after later frames arrive.
use cat_automation.Prelude.{
  ℕ, ◌-◌, ◌≡◌, ◌≤◌, refl, sym, ap, subst, ◌∙◌, inl, inr, ◌⊎◌, Option, List, [], ◌∷◌, ◌++◌, ◌&&◌,
  ltb, last_or, sort_by, sort_by-eq_self, Sorted, SortedFrom, All, All-filter, Bool-cases, arith,
}
use cat_automation.Visits.Split.{gap_split, split_loop, push_run}
use cat_automation.Visits.Runs.{runs_from, gap_split-cons}
use cat_automation.Visits.Closed.{
  recv_ts, after_id, ts_id_le, motion_rows, closed_spans, closed_visits,
}
use cat_automation.Spans.Coalesce.{key_le}
use cat_automation.Store.Tables.{Frame}

module _ (now_ms gap_ms : ℕ) where
  -- The later frames make open clusters alone.
  late_open :
      (x : Frame) (xs : List Frame)
      → now_ms ≤ recv_ts x
      → All (λ f. now_ms ≤ recv_ts f) xs
      → let (run, runs) = runs_from gap_ms recv_ts x xs in
        (now_ms - gap_ms ≤ recv_ts (last_or x run)) × (closed_spans (now_ms - gap_ms) runs ≡ [])
  unfolding runs_from closed_spans
  late_open x [] h a = (omega arith, refl)
  late_open x (y ∷ xs) h a =
      let (late, none_closed) = late_open y xs a.0 a.1 in
      elim (Bool-cases (ltb gap_ms (recv_ts y - recv_ts x))) [
        | inl far ↦ rw far (omega (arith, h), ground (arith, late, none_closed))
        | inr near ↦ rw near (late, none_closed)
      ]

  -- Whether two clusters that begin with `x` are the same, or both open.
  abbrev AlikeFrom : Frame → List Frame → List Frame → Type 0
  AlikeFrom x run' run =
      run' ≡ run
      ⊎ (now_ms - gap_ms ≤ recv_ts (last_or x run')) × (now_ms - gap_ms ≤ recv_ts (last_or x run))

  closed_spans-cons :
      (x : Frame) (run' run : List Frame) (runs' runs : List (List Frame))
      → AlikeFrom x run' run
      → closed_spans (now_ms - gap_ms) runs' ≡ closed_spans (now_ms - gap_ms) runs
      → closed_spans (now_ms - gap_ms) ((x ∷ run') ∷ runs')
        ≡ closed_spans (now_ms - gap_ms) ((x ∷ run) ∷ runs)
  unfolding closed_spans
  closed_spans-cons x run' run runs' runs (inl same) e = rw (same, e) refl
  closed_spans-cons x run' run runs' runs (inr open_both) e = ground (arith, open_both, e)

  runs_from-late :
      (x : Frame) (xs ys : List Frame)
      → All (λ f. now_ms ≤ recv_ts f) ys
      → let (run, runs) = runs_from gap_ms recv_ts x xs in
        let (run', runs') = runs_from gap_ms recv_ts x (xs ++ ys) in
        let cutoff = now_ms - gap_ms in
        AlikeFrom x run' run × (closed_spans cutoff runs' ≡ closed_spans cutoff runs)
  unfolding runs_from closed_spans
  runs_from-late x [] [] a = (inl refl, refl)
  runs_from-late x [] (y ∷ ys) a =
      let (late, none_closed) = late_open y ys a.0 a.1 in
      elim (Bool-cases (ltb gap_ms (recv_ts y - recv_ts x))) [
        | inl far ↦ rw far (inl refl, ground (arith, late, none_closed))
        | inr near ↦ rw near (inr (late, ground (arith, near, a.0)), none_closed)
      ]
  runs_from-late x (z ∷ xs) ys a =
      let (head, rest) = runs_from-late z xs ys a in
      elim (Bool-cases (ltb gap_ms (recv_ts z - recv_ts x))) [
        | inl far ↦ rw far (
          inl refl,
          closed_spans-cons z (runs_from gap_ms recv_ts z (xs ++ ys)).0
              (runs_from gap_ms recv_ts z xs).0 (runs_from gap_ms recv_ts z (xs ++ ys)).1
              (runs_from gap_ms recv_ts z xs).1 head rest,
        )
        | inr near ↦ rw near (
          elim head [ inl same ↦ inl (ap (λ run. z ∷ run) same) | inr open_both ↦ inr open_both ],
          rest,
        )
      ]

  gap_split-nil : gap_split gap_ms recv_ts [] ≡ []
  unfolding gap_split split_loop push_run
  gap_split-nil = refl

  all_open :
      (y : Frame) (run : List Frame) (runs : List (List Frame))
      → now_ms - gap_ms ≤ recv_ts (last_or y run)
      → closed_spans (now_ms - gap_ms) runs ≡ []
      → closed_spans (now_ms - gap_ms) ((y ∷ run) ∷ runs) ≡ closed_spans (now_ms - gap_ms) []
  unfolding closed_spans
  all_open y run runs late none_closed = ground (arith, late, none_closed)

  gap_split-late :
      (xs ys : List Frame)
      → All (λ f. now_ms ≤ recv_ts f) ys
      → closed_spans (now_ms - gap_ms) (gap_split gap_ms recv_ts (xs ++ ys))
        ≡ closed_spans (now_ms - gap_ms) (gap_split gap_ms recv_ts xs)
  gap_split-late [] [] a = refl
  gap_split-late [] (y ∷ ys) a =
      let (late, none_closed) = late_open y ys a.0 a.1 in
      rw (gap_split-cons gap_ms recv_ts y ys, gap_split-nil)
        (all_open y (runs_from gap_ms recv_ts y ys).0 (runs_from gap_ms recv_ts y ys).1 late
          none_closed)
  gap_split-late (x ∷ xs) ys a =
      let (head, rest) = runs_from-late x xs ys a in
      rw (gap_split-cons gap_ms recv_ts x (xs ++ ys), gap_split-cons gap_ms recv_ts x xs)
        (closed_spans-cons x (runs_from gap_ms recv_ts x (xs ++ ys)).0
          (runs_from gap_ms recv_ts x xs).0 (runs_from gap_ms recv_ts x (xs ++ ys)).1
          (runs_from gap_ms recv_ts x xs).1 head rest)

SortedFrom-front :
    (f : Frame) (xs ys : List Frame) → SortedFrom ts_id_le f (xs ++ ys) → SortedFrom ts_id_le f xs
SortedFrom-front f [] ys s = tt
SortedFrom-front f (x ∷ xs) ys s = (s.0, SortedFrom-front x xs ys s.1)

Sorted-front : (xs ys : List Frame) → Sorted ts_id_le (xs ++ ys) → Sorted ts_id_le xs
Sorted-front [] ys s = tt
Sorted-front (x ∷ xs) ys s = SortedFrom-front x xs ys s

motion_rows-append :
    (since_id : Option ℕ) (xs ys : List Frame)
    → motion_rows since_id (xs ++ ys) ≡ motion_rows since_id xs ++ motion_rows since_id ys
unfolding motion_rows
motion_rows-append since_id [] ys = refl
motion_rows-append since_id (x ∷ xs) ys = ground (arith, motion_rows-append since_id xs ys)

-- Where the motion frames come in the order of their receive times, and the later ones at `now_ms` or
-- after: what was closed at `now_ms` is the same with and without the later frames.
pub closed_visits_settled :
    (since_id : Option ℕ) (now_ms gap_ms : ℕ) (frames later : List Frame)
    → Sorted ts_id_le (motion_rows since_id (frames ++ later))
    → All (λ f. now_ms ≤ recv_ts f) later
    → closed_visits since_id now_ms gap_ms (frames ++ later)
      ≡ closed_visits since_id now_ms gap_ms frames
unfolding closed_visits motion_rows
closed_visits_settled since_id now_ms gap_ms frames later s a =
    let old = motion_rows since_id frames in
    let new = motion_rows since_id later in
    let both : Sorted ts_id_le (old ++ new) =
      subst (Sorted ts_id_le) (motion_rows-append since_id frames later) s in
    let late : All (λ f. now_ms ≤ recv_ts f) new =
      All-filter (λ f. now_ms ≤ recv_ts f) (λ f. f.motion && after_id since_id f.id) later a in
    ap (λ spans. sort_by key_le spans)
      (ap
          (λ rows.
            closed_spans (now_ms - gap_ms) (gap_split gap_ms recv_ts (sort_by ts_id_le rows)))
          (motion_rows-append since_id frames later)
        ∙ ap (λ rows. closed_spans (now_ms - gap_ms) (gap_split gap_ms recv_ts rows))
            (sort_by-eq_self ts_id_le (old ++ new) both)
        ∙ gap_split-late now_ms gap_ms old new late
        ∙ ap (λ rows. closed_spans (now_ms - gap_ms) (gap_split gap_ms recv_ts rows))
            (sym (sort_by-eq_self ts_id_le old (Sorted-front old new both))))
