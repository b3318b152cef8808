-- ===== src/Live/Passed.antt =====
-- Which visits one tick of the live-identification worker (compute/learning/live_identify.py) names.
use cat_automation.Prelude.{
  ℕ, suc, ◌+◌, ◌≡◌, refl, ap, ◌∙◌, true, false, none, some, List, [], ◌∷◌, ==_refl, zero, ltb, leb,
  Bool-cases, take, if◌then◌else◌, inl, inr, arith,
}
use cat_automation.Spans.Coalesce.{IdSpan}
use cat_automation.Store.Tables.{max_id}
use cat_automation.Visits.Counts.{visit_gap_ms}
use cat_automation.Visits.Closed.{closed_visits}
use cat_automation.Live.Worker.{Worker, event_is_set, answer_all, advance_watermark}
use cat_automation.Live.Tick.{
  max_spans_per_tick, Turn, Moment, named, save_span, after_identify, after_detect, visit_span,
  with_passed, span_loop, name_visits, name_from, name_beyond, set_up, set_up_worker, tick_worker,
}
use cat_automation.Live.Watermark.{last_end, clamped}

-- Nothing interferes with the turn, and both passes end.
pub record IsQuietTurn (turn : Turn) : Type 0 where
  pub before : turn.before ≡ []
  pub free : turn.busy ≡ false
  pub detecting : turn.detecting ≡ []
  pub detected : turn.detect_error ≡ none
  pub identifying : turn.identifying ≡ []
  pub identified : turn.identified ≡ named
  pub saving : turn.saving ≡ []

pub record IsQuiet (m : Moment) : Type 0 where
  pub has_model : m.has_model ≡ true
  pub free : m.busy ≡ false
  pub is_set_up : m.setup_error ≡ none
  pub setting_up : m.setting_up ≡ []
  pub reading : m.reading ≡ []
  pub clamping : m.clamping ≡ []
  pub turn : (i : ℕ) → IsQuietTurn (m.turn i)

-- The worker after the spans `passed` are saved in turn.
unfoldable pub saved_spans : List IdSpan → Worker → Worker
saved_spans [] w = w
saved_spans (span ∷ spans) w =
    saved_spans spans (record w { watermark = span.end_id; saved_watermark = some span.end_id })

module _ (event : ℕ) where
  visit_span_quiet :
      (turn : Turn) (span : IdSpan) (w : Worker)
      → IsQuietTurn turn
      → event_is_set event w ≡ false
      → visit_span turn event w.epoch span w ≡ record {
        worker = record w { watermark = span.end_id; saved_watermark = some span.end_id };
        goes_on = true;
        passed = true;
      }
  unfolding visit_span after_detect after_identify save_span advance_watermark answer_all
  visit_span_quiet turn span w q clear = simp (
    q.before,
    q.free,
    q.detecting,
    q.detected,
    q.identifying,
    q.identified,
    q.saving,
    clear,
    ==_refl w.epoch,
  )

  span_loop_quiet :
      (turn : ℕ → Turn) (i n : ℕ) (spans : List IdSpan) (w : Worker)
      → ((k : ℕ) → IsQuietTurn (turn k))
      → event_is_set event w ≡ false
      → i + n ≡ max_spans_per_tick
      → span_loop turn event w.epoch i spans w
        ≡ record { worker = saved_spans (take n spans) w; passed = take n spans }
  unfolding span_loop saved_spans with_passed event_is_set
  span_loop_quiet turn i zero [] w q clear e = refl
  span_loop_quiet turn i (suc n) [] w q clear e = refl
  span_loop_quiet turn i zero (span ∷ spans) w q clear e =
      let full : leb max_spans_per_tick i ≡ true = ground (arith, e) in rw full refl
  span_loop_quiet turn i (suc n) (span ∷ spans) w q clear e =
      let below : leb max_spans_per_tick i ≡ false = ground (arith, e) in
      let w' : Worker = record w { watermark = span.end_id; saved_watermark = some span.end_id } in
      rw
        (
          below,
          visit_span_quiet (turn i) span w (q i) clear,
          span_loop_quiet turn (suc i) n spans w' q clear (omega (arith, e)),
        )
        refl

saved_spans-fields :
    (spans : List IdSpan) (w : Worker)
    → let w' = saved_spans spans w in
      (w'.watermark ≡ last_end w.watermark spans)
      × (w'.last_error ≡ w.last_error)
      × (w'.last_tick_ts ≡ w.last_tick_ts)
unfolding saved_spans last_end
saved_spans-fields [] w = (refl, refl, refl)
saved_spans-fields (span ∷ spans) w =
    saved_spans-fields spans
      (record w { watermark = span.end_id; saved_watermark = some span.end_id })

-- The worker from which a tick's loop begins.
unfoldable pub clamped_worker : ℕ → Worker → Worker
clamped_worker latest w =
    if ltb latest w.watermark
    then record w { watermark = latest; saved_watermark = some latest }
    else w

name_beyond_quiet :
    (m : Moment) (event : ℕ) (w : Worker)
    → IsQuiet m
    → event_is_set event w ≡ false
    → let latest = max_id m.frames_at_latest in
      let since = clamped latest w.watermark in
      let spans = closed_visits (some since) m.now visit_gap_ms m.frames in
      name_beyond m event w ≡ record {
        worker = saved_spans (take max_spans_per_tick spans) (clamped_worker latest w);
        passed = take max_spans_per_tick spans;
      }
unfolding name_beyond name_from name_visits advance_watermark answer_all clamped clamped_worker
    event_is_set
name_beyond_quiet m event w q clear =
    let latest = max_id m.frames_at_latest in
    let visits : ℕ → List IdSpan =
      λ since. closed_visits (some since) m.now visit_gap_ms m.frames in
    let w' : Worker = record w { watermark = latest; saved_watermark = some latest } in
    elim (Bool-cases (ltb latest w.watermark)) [
      | inl above ↦
          rw (q.reading, above, q.clamping, ==_refl w.epoch)
            (span_loop_quiet event m.turn 0 max_spans_per_tick (visits latest) w' q.turn clear refl)
      | inr below ↦
          rw (q.reading, below)
            (span_loop_quiet event m.turn 0 max_spans_per_tick (visits w.watermark) w q.turn clear
              refl)
    ]

clamped_worker-fields :
    (latest : ℕ) (w : Worker)
    → let w' = clamped_worker latest w in
      (w'.watermark ≡ clamped latest w.watermark)
      × (w'.last_error ≡ w.last_error)
      × (w'.last_tick_ts ≡ w.last_tick_ts)
unfolding clamped_worker clamped
clamped_worker-fields latest w = ground arith

-- A tick that has a model and the GPU, that no call and no fault meets and whose worker is not stopped
-- names the first `max_spans_per_tick` of the visits that are closed beyond its watermark, or beyond
-- the latest id where the watermark stands above that; the watermark is then the end of the last one
-- of them, and the error on display stays.
pub tick_worker_quiet :
    (m : Moment) (event : ℕ) (w : Worker)
    → IsQuiet m
    → event_is_set event w ≡ false
    → let t = tick_worker m event w in
      let since = clamped (max_id m.frames_at_latest) w.watermark in
      let spans = closed_visits (some since) m.now visit_gap_ms m.frames in
      (t.passed ≡ take max_spans_per_tick spans)
      × (t.worker.watermark ≡ last_end since t.passed)
      × (t.worker.last_error ≡ w.last_error)
      × (t.worker.last_tick_ts ≡ some m.now)
unfolding tick_worker set_up_worker answer_all set_up event_is_set
tick_worker_quiet m event w q clear =
    let latest = max_id m.frames_at_latest in
    let w' : Worker = record w { last_tick_ts = some m.now } in
    let spans = closed_visits (some (clamped latest w.watermark)) m.now visit_gap_ms m.frames in
    let (c, ce, ct) = clamped_worker-fields latest w' in
    let (f, fe, ft) =
      saved_spans-fields (take max_spans_per_tick spans) (clamped_worker latest w') in
    rw (q.setting_up, q.has_model, q.free, q.is_set_up, name_beyond_quiet m event w' q clear)
      (refl, f ∙ ap (λ base. last_end base (take max_spans_per_tick spans)) c, fe ∙ ce, ft ∙ ct)
