-- ===== src/Live/Stopped.antt =====
-- A stop of the live-identification worker (compute/learning/live_identify.py) that lands in the middle of
-- a tick.
use Prim.Native.String.{String}
use cat_automation.Prelude.{
  ℕ, suc, ◌+◌, ◌≡◌, ◌≤◌, ◌<◌, refl, sym, ap, ◌∙◌, subst, ◌⊎◌, inl, inr, Bool, true, false, Option,
  none, some, List, [], ◌∷◌, ◌||◌, not, ◌==◌, leb, ltb, Bool-cases, length, arith,
}
use cat_automation.Spans.Coalesce.{IdSpan}
use cat_automation.Store.Tables.{max_id}
use cat_automation.Visits.Counts.{visit_gap_ms}
use cat_automation.Visits.Closed.{closed_visits}
use cat_automation.Live.Worker.{
  Worker, Call, starts, stops, restores, resets, seed, start_worker, stop_worker, restore_worker,
  reset_watermark, answer, answer_all, event_is_set, advance_watermark,
}
use cat_automation.Live.Kept.{KeptInTurn, visit_span-kept}
use cat_automation.Live.Tick.{
  max_spans_per_tick, Turn, Moment, break_loop, fail_tick, after_detect, visit_span, with_passed,
  span_loop, name_visits, name_from, name_beyond, set_up, set_up_worker, tick_worker,
}

-- The event is set, and no call clears it: it is the last one of a worker that is off, or an earlier one.
abbrev pub IsStopped : ℕ → Worker → Type 0
IsStopped event w =
    (event < w.stop_event) ⊎ (event ≡ w.stop_event) × (w.stopping ≡ true) × (w.running ≡ false)

-- The worker whose event it is runs, or was stopped.
abbrev pub Serves : ℕ → Worker → Type 0
Serves event w = IsStopped event w ⊎ (event ≡ w.stop_event) × (w.running ≡ true)

module _ (event : ℕ) where
  IsStopped-event_is_set : (w : Worker) → IsStopped event w → event_is_set event w ≡ true
  unfolding event_is_set
  IsStopped-event_is_set w s = ground (arith, s)

  answer-IsStopped :
      (call : Call) (w : Worker) → IsStopped event w → IsStopped event (answer call w)
  unfolding answer start_worker stop_worker restore_worker reset_watermark seed
  answer-IsStopped (starts horizon) w s = ground (arith, s)
  answer-IsStopped (stops persist) w s = ground (arith, s)
  answer-IsStopped (restores flag horizon) w s = ground (arith, s)
  answer-IsStopped (resets v) w s = ground (arith, s)

  answer-Serves : (call : Call) (w : Worker) → Serves event w → Serves event (answer call w)
  unfolding answer start_worker stop_worker restore_worker reset_watermark seed
  answer-Serves (starts horizon) w s = ground (arith, s)
  answer-Serves (stops persist) w s = ground (arith, s)
  answer-Serves (restores flag horizon) w s = ground (arith, s)
  answer-Serves (resets v) w s = ground (arith, s)

  stop_worker-IsStopped :
      (persist : Bool) (w : Worker) → Serves event w → IsStopped event (answer (stops persist) w)
  unfolding answer stop_worker
  stop_worker-IsStopped persist w s = ground (arith, s)

  answer_all-IsStopped :
      (calls : List Call) (w : Worker) → IsStopped event w → IsStopped event (answer_all calls w)
  unfolding answer_all
  answer_all-IsStopped [] w s = s
  answer_all-IsStopped (call ∷ calls) w s =
      answer_all-IsStopped calls (answer call w) (answer-IsStopped call w s)

  answer_all-Serves :
      (calls : List Call) (w : Worker) → Serves event w → Serves event (answer_all calls w)
  unfolding answer_all
  answer_all-Serves [] w s = s
  answer_all-Serves (call ∷ calls) w s =
      answer_all-Serves calls (answer call w) (answer-Serves call w s)

  answer_all_stops :
      (persist : Bool) (calls : List Call) (w : Worker)
      → Serves event w
      → IsStopped event (answer_all (stops persist ∷ calls) w)
  unfolding answer_all
  answer_all_stops persist calls w s =
      answer_all-IsStopped calls (answer (stops persist) w) (stop_worker-IsStopped persist w s)

  advance_watermark-Serves :
      (saving : List Call) (value epoch : ℕ) (w : Worker)
      → Serves event w
      → Serves event (advance_watermark saving value epoch w).0
  unfolding advance_watermark
  advance_watermark-Serves saving value epoch w s =
      ground (arith, s, answer_all-Serves saving (record w { watermark = value }) s)

  Serves-KeptInTurn : (turn : Turn) → KeptInTurn (Serves event) turn
  unfolding fail_tick
  Serves-KeptInTurn turn = record {
    before = answer_all-Serves turn.before;
    detecting = answer_all-Serves turn.detecting;
    identifying = answer_all-Serves turn.identifying;
    saving = advance_watermark-Serves turn.saving;
    fault = λ error w s. s;
  }

  -- A stop during the detect pass of a turn: neither pass counts, and the loop ends.
  after_detect_stopped :
      (error : Option String) (turn : Turn) (epoch : ℕ) (span : IdSpan) (w : Worker)
      → IsStopped event w
      → let v = after_detect error turn event epoch span w in
        (v.goes_on ≡ false) × (v.passed ≡ false)
  unfolding after_detect break_loop fail_tick
  after_detect_stopped (some error) turn epoch span w s = (refl, refl)
  after_detect_stopped none turn epoch span w s = rw (IsStopped-event_is_set w s) (refl, refl)

  visit_span_stopped :
      (turn : Turn) (epoch : ℕ) (span : IdSpan) (w : Worker) (persist : Bool) (calls : List Call)
      → Serves event w
      → turn.detecting ≡ stops persist ∷ calls
      → let v = visit_span turn event epoch span w in (v.goes_on ≡ false) × (v.passed ≡ false)
  unfolding visit_span break_loop
  visit_span_stopped turn epoch span w persist calls s e =
      let w' = answer_all turn.before w in
      let stopped : IsStopped event (answer_all turn.detecting w') =
        subst (λ asked. IsStopped event (answer_all asked w')) (sym e)
          (answer_all_stops persist calls w' (answer_all-Serves turn.before w s)) in
      elim (Bool-cases (event_is_set event w' || turn.busy)) [
        | inl yields ↦ rw yields (refl, refl)
        | inr clear ↦ rw clear (
            after_detect_stopped turn.detect_error turn epoch span (answer_all turn.detecting w')
              stopped)
      ]

  length-with_passed :
      (passed : Bool) (span : IdSpan) (rest : List IdSpan)
      → length (with_passed passed span rest) ≤ suc (length rest)
  unfolding with_passed
  length-with_passed passed span rest = ground arith

  -- The turn is before the one in which a stop lands, or neither pass counts and the loop ends.
  turn_ends :
      (turn : ℕ → Turn) (epoch i k : ℕ) (span : IdSpan) (w : Worker) (persist : Bool)
      (calls : List Call)
      → Serves event w
      → (turn k).detecting ≡ stops persist ∷ calls
      → i ≤ k
      → let v = visit_span (turn i) event epoch span w in
        (suc i ≤ k) ⊎ (v.goes_on ≡ false) × (v.passed ≡ false)
  turn_ends turn epoch i k span w persist calls s e h = elim (Bool-cases (i == k)) [
    | inl same ↦ inr (
        visit_span_stopped (turn i) epoch span w persist calls s
          (ap (λ j. (turn j).detecting) (ground (arith, same)) ∙ e))
    | inr differ ↦ inl (ground (arith, differ, h))
  ]

  span_loop_stopped :
      (turn : ℕ → Turn) (epoch i k : ℕ) (spans : List IdSpan) (w : Worker) (persist : Bool)
      (calls : List Call)
      → Serves event w
      → (turn k).detecting ≡ stops persist ∷ calls
      → i ≤ k
      → length (span_loop turn event epoch i spans w).passed + i ≤ k
  unfolding span_loop with_passed
  span_loop_stopped turn epoch i k [] w persist calls s e h = omega (arith, h)
  span_loop_stopped turn epoch i k (span ∷ spans) w persist calls s e h =
      let v = visit_span (turn i) event epoch span w in
      let rest = span_loop turn event epoch (suc i) spans v.worker in
      let ends = turn_ends turn epoch i k span w persist calls s e h in
      elim (Bool-cases (leb max_spans_per_tick i)) [
        | inl full ↦ rw full (omega (arith, h))
        | inr below ↦ elim (Bool-cases v.goes_on) [
          | inl on ↦
              rw (below, on)
                (omega (
                  arith,
                  length-with_passed v.passed span rest.passed,
                  span_loop_stopped turn epoch (suc i) k spans v.worker persist calls
                      (visit_span-kept (turn i) event epoch span w (Serves-KeptInTurn (turn i)) s) e
                      (ground (arith, ends, on)),
                ))
          | inr off ↦ rw (below, off) (ground (arith, ends, h, off))
        ]
      ]

name_from_stopped :
    (m : Moment) (event epoch watermark : ℕ) (w : Worker) (k : ℕ) (persist : Bool)
    (calls : List Call)
    → Serves event w
    → (m.turn k).detecting ≡ stops persist ∷ calls
    → length (name_from m event epoch watermark w).passed ≤ k
unfolding name_from name_visits
name_from_stopped m event epoch watermark w k persist calls s e =
    let latest = max_id m.frames_at_latest in
    let (w', advanced) = advance_watermark m.clamping latest epoch w in
    let s' = advance_watermark-Serves event m.clamping latest epoch w s in
    let visits : ℕ → List IdSpan =
      λ since. closed_visits (some since) m.now visit_gap_ms m.frames in
    elim (Bool-cases (ltb latest watermark)) [
      | inl above ↦ elim (Bool-cases advanced) [
        | inl on ↦
            rw (above, on)
              (omega (
                arith,
                span_loop_stopped event m.turn epoch 0 k (visits latest) w' persist calls s' e
                    (omega arith),
              ))
        | inr off ↦ rw (above, off) (omega arith)
      ]
      | inr below ↦ rw below (
          omega (
            arith,
            span_loop_stopped event m.turn epoch 0 k (visits watermark) w persist calls s e
                (omega arith),
          ))
    ]

name_beyond_stopped :
    (m : Moment) (event : ℕ) (w : Worker) (k : ℕ) (persist : Bool) (calls : List Call)
    → Serves event w
    → (m.turn k).detecting ≡ stops persist ∷ calls
    → length (name_beyond m event w).passed ≤ k
unfolding name_beyond
name_beyond_stopped m event w k persist calls s e =
    name_from_stopped m event w.epoch w.watermark (answer_all m.reading w) k persist calls
      (answer_all-Serves event m.reading w s) e

set_up_stopped :
    (error : Option String) (m : Moment) (event : ℕ) (w : Worker) (k : ℕ) (persist : Bool)
    (calls : List Call)
    → Serves event w
    → (m.turn k).detecting ≡ stops persist ∷ calls
    → length (set_up error m event w).passed ≤ k
unfolding set_up
set_up_stopped (some error) m event w k persist calls s e = omega arith
set_up_stopped none m event w k persist calls s e =
    name_beyond_stopped m event w k persist calls s e

-- A tick of the running worker during which a stop lands in the detect pass of the span with index `k`
-- names at most the `k` spans before it, whatever is called after the stop, a new start included.
pub tick_worker_stopped :
    (m : Moment) (event : ℕ) (w : Worker) (k : ℕ) (persist : Bool) (calls : List Call)
    → w.running ≡ true
    → w.stop_event ≡ event
    → (m.turn k).detecting ≡ stops persist ∷ calls
    → length (tick_worker m event w).passed ≤ k
unfolding tick_worker set_up_worker
tick_worker_stopped m event w k persist calls runs serves e =
    let begun : Worker = record w { last_tick_ts = some m.now } in
    let w' = set_up_worker m w in
    let s = answer_all-Serves event m.setting_up begun (inr (sym serves, runs)) in
    elim (Bool-cases (not m.has_model || m.busy)) [
      | inl idle ↦ rw idle (omega arith)
      | inr works ↦ rw works (set_up_stopped m.setup_error m event w' k persist calls s e)
    ]
