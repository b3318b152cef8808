-- ===== src/Visits/Closed.antt =====
-- `Store.closed_visits` (compute/collection/store.py), over the rows of the frames table. The instants are
-- never negative, so a cutoff that stops at 0 leaves the same clusters open as a negative one.
use cat_automation.Prelude.{
  ℕ, ◌-◌, Bool, true, Option, none, some, List, [], ◌∷◌, ◌==◌, ◌&&◌, ◌||◌, ltb, leb, min, max,
  if◌then◌else◌, filter, last_or, sort_by,
}
use cat_automation.Visits.Split.{gap_split}
use cat_automation.Spans.Coalesce.{IdSpan, key_le}
use cat_automation.Store.Tables.{Frame}

abbrev pub recv_ts : Frame → ℕ
recv_ts f = f.path.recv_ts

-- `id > since_id`
unfoldable pub after_id : Option ℕ → ℕ → Bool
after_id none id = true
after_id (some since_id) id = ltb since_id id

-- `ORDER BY recv_ts ASC, id ASC`
unfoldable pub ts_id_le : Frame → Frame → Bool
ts_id_le f g = ltb (recv_ts f) (recv_ts g) || recv_ts f == recv_ts g && leb f.id g.id

unfoldable pub motion_rows : Option ℕ → List Frame → List Frame
unfolding after_id
motion_rows since_id frames = filter (λ f. f.motion && after_id since_id f.id) frames

-- The lowest and the highest id of a cluster.
unfoldable pub id_span : Frame → List Frame → IdSpan
id_span f [] = record { start_id = f.id; end_id = f.id }
id_span f (g ∷ rows) =
    let rest = id_span g rows in
    record { start_id = min f.id rest.start_id; end_id = max f.id rest.end_id }

-- The spans of the clusters whose newest frame is older than the cutoff. No cluster is empty.
unfoldable pub closed_spans : ℕ → List (List Frame) → List IdSpan
unfolding id_span
closed_spans cutoff [] = []
closed_spans cutoff ([] ∷ clusters) = closed_spans cutoff clusters
closed_spans cutoff ((f ∷ rows) ∷ clusters) =
    let rest = closed_spans cutoff clusters in
    if leb cutoff (recv_ts (last_or f rows)) then rest else id_span f rows ∷ rest

-- `closed_visits`
unfoldable pub closed_visits : Option ℕ → ℕ → ℕ → List Frame → List IdSpan
unfolding motion_rows ts_id_le
closed_visits since_id now_ms gap_ms frames =
    let rows = sort_by ts_id_le (motion_rows since_id frames) in
    sort_by key_le (closed_spans (now_ms - gap_ms) (gap_split gap_ms recv_ts rows))
