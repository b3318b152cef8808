-- ===== src/Live/Tick.antt =====
-- `LiveIdentifyManager._tick` (compute/learning/live_identify.py). What the tick meets is an argument: the
-- store's rows, the faults of the detect and identify passes, and the calls that other threads make
-- between its steps.
use Prim.Native.String.{String}
use cat_automation.Prelude.{
  ℕ, suc, Bool, true, false, Option, none, some, List, [], ◌∷◌, ◌||◌, not, ltb, leb, if◌then◌else◌,
}
use cat_automation.Spans.Coalesce.{IdSpan}
use cat_automation.Store.Tables.{Frame, max_id}
use cat_automation.Visits.Counts.{visit_gap_ms}
use cat_automation.Visits.Closed.{closed_visits}
use cat_automation.Live.Worker.{Worker, Call, event_is_set, answer_all, advance_watermark}

abbrev pub max_spans_per_tick : ℕ
max_spans_per_tick = 50

-- How the identify pass ends: with the names, with `EmbedCancelled`, or with another exception.
pub data Identified : Type 0 where
  named : Identified
  embed_cancelled : Identified
  identify_failed : String → Identified

-- What one turn of the loop meets: the calls before its checks, `is_busy`, the calls during the detect
-- pass and its exception, the calls during the identify pass and its end, and the calls while the
-- watermark is saved.
pub record Turn : Type 0 where
  pub before : List Call
  pub busy : Bool
  pub detecting : List Call
  pub detect_error : Option String
  pub identifying : List Call
  pub identified : Identified
  pub saving : List Call

-- What one tick meets before its loop: the time, whether a model is active, `is_busy`, the exception of
-- the resident models' set-up, the calls before the snapshot of epoch and watermark, those between the
-- snapshot and the clamp, and those while a clamped watermark is saved, and the rows at `latest_id` and
-- at `closed_visits`.
pub record Moment : Type 0 where
  pub now : ℕ
  pub has_model : Bool
  pub busy : Bool
  pub setup_error : Option String
  pub setting_up : List Call
  pub reading : List Call
  pub frames_at_latest : List Frame
  pub clamping : List Call
  pub frames : List Frame
  pub turn : ℕ → Turn

-- A turn's end: the worker, whether the loop goes on, and whether both passes ended for the span.
pub record Visited : Type 0 where
  pub worker : Worker
  pub goes_on : Bool
  pub passed : Bool

-- A tick's end, with the spans for which both passes ended.
pub record Ticked : Type 0 where
  pub worker : Worker
  pub passed : List IdSpan

unfoldable pub fail_tick : String → Worker → Worker
fail_tick error w = record w { last_error = some error }

unfoldable pub break_loop : Worker → Visited
break_loop w = record { worker = w; goes_on = false; passed = false }

unfoldable pub save_span : Turn → ℕ → IdSpan → Worker → Visited
unfolding advance_watermark
save_span turn epoch span w =
    let (w', advanced) = advance_watermark turn.saving span.end_id epoch w in
    record { worker = w'; goes_on = advanced; passed = true }

unfoldable pub after_identify : Identified → Turn → ℕ → IdSpan → Worker → Visited
unfolding break_loop fail_tick save_span
after_identify named turn epoch span w = save_span turn epoch span w
after_identify embed_cancelled turn epoch span w = break_loop w
after_identify (identify_failed error) turn epoch span w = break_loop (fail_tick error w)

unfoldable pub after_detect : Option String → Turn → ℕ → ℕ → IdSpan → Worker → Visited
unfolding break_loop fail_tick event_is_set answer_all after_identify
after_detect (some error) turn event epoch span w = break_loop (fail_tick error w)
after_detect none turn event epoch span w =
    let v = after_identify turn.identified turn epoch span (answer_all turn.identifying w) in
    if event_is_set event w then break_loop w else v

-- The body of the loop, below the cap.
unfoldable pub visit_span : Turn → ℕ → ℕ → IdSpan → Worker → Visited
unfolding break_loop event_is_set answer_all after_detect
visit_span turn event epoch span w =
    let w' = answer_all turn.before w in
    let v = after_detect turn.detect_error turn event epoch span (answer_all turn.detecting w') in
    if event_is_set event w' || turn.busy then break_loop w' else v

unfoldable pub with_passed : Bool → IdSpan → List IdSpan → List IdSpan
with_passed passed span rest = if passed then span ∷ rest else rest

unfoldable pub span_loop : (ℕ → Turn) → ℕ → ℕ → ℕ → List IdSpan → Worker → Ticked
unfolding visit_span with_passed
span_loop turn event epoch i [] w = record { worker = w; passed = [] }
span_loop turn event epoch i (span ∷ spans) w =
    let v = visit_span (turn i) event epoch span w in
    let rest = span_loop turn event epoch (suc i) spans v.worker in
    if leb max_spans_per_tick i
    then record { worker = w; passed = [] }
    else if v.goes_on
    then record { worker = rest.worker; passed = with_passed v.passed span rest.passed }
    else record { worker = v.worker; passed = with_passed v.passed span [] }

-- The loop over the visits that are closed beyond `watermark`.
unfoldable pub name_visits : Moment → ℕ → ℕ → ℕ → Worker → Ticked
unfolding span_loop closed_visits
name_visits m event epoch watermark w =
    span_loop m.turn event epoch 0 (closed_visits (some watermark) m.now visit_gap_ms m.frames) w

-- The tick after its snapshot of epoch and watermark, with the clamp of a watermark above the latest id.
unfoldable pub name_from : Moment → ℕ → ℕ → ℕ → Worker → Ticked
unfolding advance_watermark name_visits max_id
name_from m event epoch watermark w =
    let latest = max_id m.frames_at_latest in
    let (clamped, advanced) = advance_watermark m.clamping latest epoch w in
    let rest = name_visits m event epoch latest clamped in
    if ltb latest watermark
    then (if advanced then rest else record { worker = clamped; passed = [] })
    else name_visits m event epoch watermark w

-- The tick from the snapshot on.
unfoldable pub name_beyond : Moment → ℕ → Worker → Ticked
unfolding name_from answer_all
name_beyond m event w = name_from m event w.epoch w.watermark (answer_all m.reading w)

unfoldable pub set_up : Option String → Moment → ℕ → Worker → Ticked
unfolding fail_tick name_beyond
set_up (some error) m event w = record { worker = fail_tick error w; passed = [] }
set_up none m event w = name_beyond m event w

-- The worker when the tick takes its snapshot, or when it returns before that.
unfoldable pub set_up_worker : Moment → Worker → Worker
unfolding answer_all
set_up_worker m w = answer_all m.setting_up (record w { last_tick_ts = some m.now })

-- `_tick` of a worker whose stop event is the one numbered `event`.
unfoldable pub tick_worker : Moment → ℕ → Worker → Ticked
unfolding set_up set_up_worker
tick_worker m event w =
    let w' = set_up_worker m w in
    if not m.has_model || m.busy
    then record { worker = w'; passed = [] }
    else set_up m.setup_error m event w'
