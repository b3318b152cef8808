-- ===== src/Tests/Visits.antt =====
-- Visits (compute/collection/store.py) of two cats, and of one that comes back.
use cat_automation.Store.Tables.{Frame}
use cat_automation.Visits.Closed.{closed_visits, motion_rows, ts_id_le, closed_spans}
use cat_automation.Visits.Settled.{closed_visits_settled}
use cat_automation.Prelude.{
  none, ◌++◌, ℕ, ◌≡◌, refl, true, false, some, List, [], ◌∷◌, flatten, ltb, length, ◌+◌, arith,
}
use cat_automation.Visits.Split.{gap_split}
use cat_automation.Visits.Runs.{IsClustering, gap_split-IsClustering}
use cat_automation.Visits.Counts.{
  split_into_visits, motion_ts, visit_gap_ms, Row, visit_caught, present_ts, Buckets,
  cluster_visits, cluster_visits_split,
}
use cat_automation.Visits.Caught.{caught_runs, cluster_visits_lem, cluster_visits_split-totals}

abbrev two_runs : List (List ℕ)
two_runs = (100 ∷ 400 ∷ 900 ∷ []) ∷ (9000 ∷ 9500 ∷ []) ∷ []

abbrev two_runs-IsClustering : IsClustering 5000 (λ t. t) two_runs
two_runs-IsClustering = record {
  linked = (
    (omega arith, omega arith, (omega arith, omega arith, tt)),
    ((omega arith, omega arith, tt), tt),
  );
  apart = (omega arith, tt);
}

gap_split-IsClustering_example :
    (flatten (gap_split 5000 (λ t. t) (100 ∷ 400 ∷ 9000 ∷ [])) ≡ 100 ∷ 400 ∷ 9000 ∷ [])
    × IsClustering 5000 (λ t. t) (gap_split 5000 (λ t. t) (100 ∷ 400 ∷ 9000 ∷ []))
gap_split-IsClustering_example =
    gap_split-IsClustering 5000 (λ t. t) (100 ∷ 400 ∷ 9000 ∷ []) (omega arith, (omega arith, tt))

abbrev cat_at : ℕ → Row
cat_at ts = record { recv_ts = ts; src_motion = false; present = some true }

abbrev motion_at : ℕ → Row
motion_at ts = record { recv_ts = ts; src_motion = true; present = some false }

abbrev rows : List Row
rows = cat_at 9000 ∷ motion_at 9500 ∷ cat_at 10000 ∷ cat_at 50000 ∷ cat_at 50900 ∷ []

-- One visit of the two was near motion that the gate saw.
rows_counts : cluster_visits rows ≡ some (2, 1)
unfolding cluster_visits present_ts split_into_visits gap_split visit_caught motion_ts
rows_counts = refl

cluster_visits_lem_example :
    (runs : List (List ℕ)) × (flatten runs ≡ present_ts rows)
    × IsClustering visit_gap_ms (λ t. t) runs
    × (cluster_visits rows ≡ some (length runs, caught_runs rows runs))
cluster_visits_lem_example = cluster_visits_lem rows

cluster_visits_split-totals_example :
    (b : Buckets) × (cluster_visits_split (ltb 20000) rows ≡ some b)
    × (cluster_visits rows ≡ some (b.day_total + b.night_total, b.day_caught + b.night_caught))
cluster_visits_split-totals_example = cluster_visits_split-totals (ltb 20000) rows

abbrev visitor : ℕ → ℕ → Frame
visitor id ts = record {
  id = id;
  path = record { recv_ts = ts; frame_id = id };
  motion = true;
  n_bytes = 10;
}

-- At 20000 the first visit is closed; a frame of 20500 leaves it so.
abbrev seen : List Frame
seen = visitor 1 10000 ∷ visitor 2 11000 ∷ visitor 3 19000 ∷ []

closed_seen : closed_visits none 20000 2000 seen ≡ record { start_id = 1; end_id = 2 } ∷ []
unfolding closed_visits gap_split closed_spans
closed_seen = refl

closed_visits_settled_example :
    closed_visits none 20000 2000 (seen ++ visitor 4 20500 ∷ [])
    ≡ closed_visits none 20000 2000 seen
closed_visits_settled_example =
    closed_visits_settled none 20000 2000 seen (visitor 4 20500 ∷ [])
      (unfold motion_rows ts_id_le in (refl, (refl, (refl, tt)))) (omega arith, tt)
