-- ===== src/Tests/Live.antt =====
-- The live-identification worker (compute/learning/live_identify.py) over three visits.
use cat_automation.Prelude.{
  ℕ, ◌≤◌, ◌<◌, ◌≡◌, refl, ◌⊎◌, true, false, none, some, List, [], ◌∷◌, take, length,
}
use cat_automation.Store.Tables.{Frame, max_id}
use cat_automation.Visits.Counts.{visit_gap_ms}
use cat_automation.Visits.Split.{gap_split}
use cat_automation.Spans.Coalesce.{key_le}
use cat_automation.Visits.Closed.{closed_visits, closed_spans}
use cat_automation.Live.Worker.{
  Worker, settings, new_worker, stops, resets, starts, start_worker, event_is_set,
  advance_watermark,
}
use cat_automation.Live.Tick.{Turn, Moment, named, max_spans_per_tick, set_up_worker, tick_worker}
use cat_automation.Live.Watermark.{last_end, clamped, tick_worker-watermark}
use cat_automation.Live.Passed.{tick_worker_quiet}
use cat_automation.Live.Stopped.{tick_worker_stopped}
use cat_automation.Live.Saved.{advance_watermark_overwrites}

abbrev visitor : ℕ → ℕ → Frame
visitor id ts = record {
  id = id;
  path = record { recv_ts = ts; frame_id = id };
  motion = true;
  n_bytes = 10;
}

-- The visits of the ids 1 and 2, of 3 and of 4 are closed at 40000.
abbrev seen : List Frame
seen = visitor 1 10000 ∷ visitor 2 11000 ∷ visitor 3 19000 ∷ visitor 4 30000 ∷ []

abbrev quiet_turn : Turn
quiet_turn = record {
  before = [];
  busy = false;
  detecting = [];
  detect_error = none;
  identifying = [];
  identified = named;
  saving = [];
}

abbrev quiet : Moment
quiet = record {
  now = 40000;
  has_model = true;
  busy = false;
  setup_error = none;
  setting_up = [];
  reading = [];
  frames_at_latest = seen;
  clamping = [];
  frames = seen;
  turn = λ i. quiet_turn;
}

-- The worker after its first start, on an empty store.
abbrev on : Worker
on = start_worker 0 (new_worker (record { watermark = none; intent = none }))

on_watermark : (tick_worker quiet 1 on).worker.watermark ≡ 4
unfolding tick_worker start_worker new_worker closed_visits max_id closed_spans gap_split key_le
on_watermark = refl

tick_worker_quiet_example :
    let t = tick_worker quiet 1 on in
    let since = clamped (max_id seen) on.watermark in
    let spans = closed_visits (some since) 40000 visit_gap_ms seen in
    (t.passed ≡ take max_spans_per_tick spans)
    × (t.worker.watermark ≡ last_end since t.passed)
    × (t.worker.last_error ≡ on.last_error)
    × (t.worker.last_tick_ts ≡ some 40000)
tick_worker_quiet_example =
    tick_worker_quiet quiet 1 on
      (record {
        has_model = refl;
        free = refl;
        is_set_up = refl;
        setting_up = refl;
        reading = refl;
        clamping = refl;
        turn = λ i. record {
          before = refl;
          free = refl;
          detecting = refl;
          detected = refl;
          identifying = refl;
          identified = refl;
          saving = refl;
        };
      })
      (unfold event_is_set start_worker new_worker in refl)

-- A reset lands while the models are set up, and another one while the first name is looked for.
abbrev wiped : Moment
wiped = record quiet {
  setting_up = resets 2 ∷ [];
  turn = λ i. record quiet_turn { identifying = resets 0 ∷ [] };
}

tick_worker-watermark_example :
    let t = tick_worker wiped 1 on in
    let at_snapshot = set_up_worker wiped on in
    ((t.worker.epoch ≡ at_snapshot.epoch)
      × ((t.worker.watermark ≡ last_end (clamped (max_id seen) at_snapshot.watermark) t.passed)
          ⊎ (t.worker.watermark ≡ at_snapshot.watermark) × (t.passed ≡ [])))
    ⊎ (at_snapshot.epoch < t.worker.epoch) × (t.worker.watermark ≡ 0)
tick_worker-watermark_example =
    tick_worker-watermark wiped 1 0 on (unfold start_worker new_worker in refl) (record {
      reading = tt;
      clamping = tt;
      turn = λ i. record { before = tt; detecting = tt; identifying = (refl, tt); saving = tt };
    })

-- A stop and a new start land in each detect pass.
abbrev interrupted : Moment
interrupted = record quiet {
  turn = λ i. record quiet_turn { detecting = stops false ∷ starts 4 ∷ [] };
}

tick_worker_stopped_example : length (tick_worker interrupted 1 on).passed ≤ 0
tick_worker_stopped_example =
    tick_worker_stopped interrupted 1 on 0 false (starts 4 ∷ [])
      (unfold start_worker new_worker in refl) (unfold start_worker new_worker in refl) refl

advance_watermark_overwrites_example :
    let (w', advanced) = advance_watermark (resets 0 ∷ []) 2 0 on in
    (w'.watermark ≡ 0) × ((new_worker (settings w')).watermark ≡ 2)
advance_watermark_overwrites_example =
    advance_watermark_overwrites 2 0 0 on (unfold start_worker new_worker in refl)
      (unfold start_worker new_worker in refl)
