-- ===== src/Live/Kept.antt =====
-- A property of the live-identification worker (compute/learning/live_identify.py) that every call and every
-- save keeps is kept by a tick.
use Prim.Native.String.{String}
use cat_automation.Prelude.{
  ℕ, suc, inl, inr, Option, none, some, List, [], ◌∷◌, ◌||◌, not, leb, ltb, Bool-cases,
}
use cat_automation.Spans.Coalesce.{IdSpan}
use cat_automation.Store.Tables.{max_id}
use cat_automation.Visits.Counts.{visit_gap_ms}
use cat_automation.Visits.Closed.{closed_visits}
use cat_automation.Live.Worker.{Worker, answer_all, event_is_set, advance_watermark}
use cat_automation.Live.Tick.{
  max_spans_per_tick, Turn, Moment, Identified, named, embed_cancelled, identify_failed, break_loop,
  fail_tick, save_span, after_identify, after_detect, visit_span, span_loop, name_visits, name_from,
  name_beyond, set_up, set_up_worker, tick_worker,
}

-- The calls of a turn, its save and its fault keep `P`.
pub record KeptInTurn (P : Worker → Type 0) (turn : Turn) : Type 0 where
  pub before : (w : Worker) → P w → P (answer_all turn.before w)
  pub detecting : (w : Worker) → P w → P (answer_all turn.detecting w)
  pub identifying : (w : Worker) → P w → P (answer_all turn.identifying w)
  pub saving :
      (value epoch : ℕ) (w : Worker) → P w → P (advance_watermark turn.saving value epoch w).0
  pub fault : (error : String) (w : Worker) → P w → P (fail_tick error w)

pub record KeptInTick (P : Worker → Type 0) (m : Moment) : Type 0 where
  pub setting_up : (w : Worker) → P w → P (answer_all m.setting_up w)
  pub reading : (w : Worker) → P w → P (answer_all m.reading w)
  pub clamping :
      (value epoch : ℕ) (w : Worker) → P w → P (advance_watermark m.clamping value epoch w).0
  pub turn : (i : ℕ) → KeptInTurn P (m.turn i)
  pub begin : (now : ℕ) (w : Worker) → P w → P (record w { last_tick_ts = some now })

module _ {P : Worker → Type 0} where
  after_identify-kept :
      (end : Identified) (turn : Turn) (epoch : ℕ) (span : IdSpan) (w : Worker)
      → KeptInTurn P turn
      → P w
      → P (after_identify end turn epoch span w).worker
  unfolding after_identify save_span break_loop
  after_identify-kept named turn epoch span w k p = k.saving span.end_id epoch w p
  after_identify-kept embed_cancelled turn epoch span w k p = p
  after_identify-kept (identify_failed error) turn epoch span w k p = k.fault error w p

  after_detect-kept :
      (error : Option String) (turn : Turn) (event epoch : ℕ) (span : IdSpan) (w : Worker)
      → KeptInTurn P turn
      → P w
      → P (after_detect error turn event epoch span w).worker
  unfolding after_detect break_loop
  after_detect-kept (some error) turn event epoch span w k p = k.fault error w p
  after_detect-kept none turn event epoch span w k p = elim (Bool-cases (event_is_set event w)) [
    | inl set ↦ rw set p
    | inr clear ↦ rw clear (
        after_identify-kept turn.identified turn epoch span (answer_all turn.identifying w) k
          (k.identifying w p))
  ]

  pub visit_span-kept :
      (turn : Turn) (event epoch : ℕ) (span : IdSpan) (w : Worker)
      → KeptInTurn P turn
      → P w
      → P (visit_span turn event epoch span w).worker
  unfolding visit_span break_loop
  visit_span-kept turn event epoch span w k p =
      let w' = answer_all turn.before w in
      elim (Bool-cases (event_is_set event w' || turn.busy)) [
        | inl yields ↦ rw yields (k.before w p)
        | inr clear ↦ rw clear (
            after_detect-kept turn.detect_error turn event epoch span (answer_all turn.detecting w')
              k (k.detecting w' (k.before w p)))
      ]

  span_loop-kept :
      (turn : ℕ → Turn) (event epoch i : ℕ) (spans : List IdSpan) (w : Worker)
      → ((j : ℕ) → KeptInTurn P (turn j))
      → P w
      → P (span_loop turn event epoch i spans w).worker
  unfolding span_loop
  span_loop-kept turn event epoch i [] w k p = p
  span_loop-kept turn event epoch i (span ∷ spans) w k p =
      let v = visit_span (turn i) event epoch span w in
      let kept = visit_span-kept (turn i) event epoch span w (k i) p in
      elim (Bool-cases (leb max_spans_per_tick i)) [
        | inl full ↦ rw full p
        | inr below ↦ elim (Bool-cases v.goes_on) [
          | inl on ↦ rw (below, on) (span_loop-kept turn event epoch (suc i) spans v.worker k kept)
          | inr off ↦ rw (below, off) kept
        ]
      ]

  name_from-kept :
      (m : Moment) (event epoch watermark : ℕ) (w : Worker)
      → KeptInTick P m
      → P w
      → P (name_from m event epoch watermark w).worker
  unfolding name_from name_visits
  name_from-kept m event epoch watermark w k p =
      let latest = max_id m.frames_at_latest in
      let (w', advanced) = advance_watermark m.clamping latest epoch w in
      let p' = k.clamping latest epoch w p in
      let visits : ℕ → List IdSpan =
        λ since. closed_visits (some since) m.now visit_gap_ms m.frames in
      elim (Bool-cases (ltb latest watermark)) [
        | inl above ↦ elim (Bool-cases advanced) [
          | inl on ↦
              rw (above, on) (span_loop-kept m.turn event epoch 0 (visits latest) w' k.turn p')
          | inr off ↦ rw (above, off) p'
        ]
        | inr below ↦ rw below (span_loop-kept m.turn event epoch 0 (visits watermark) w k.turn p)
      ]

  name_beyond-kept :
      (m : Moment) (event : ℕ) (w : Worker)
      → KeptInTick P m
      → P w
      → P (name_beyond m event w).worker
  unfolding name_beyond
  name_beyond-kept m event w k p =
      name_from-kept m event w.epoch w.watermark (answer_all m.reading w) k (k.reading w p)

  set_up-kept :
      (error : Option String) (m : Moment) (event : ℕ) (w : Worker)
      → KeptInTick P m
      → P w
      → P (set_up error m event w).worker
  unfolding set_up
  set_up-kept (some error) m event w k p = (k.turn 0).fault error w p
  set_up-kept none m event w k p = name_beyond-kept m event w k p

  pub tick_worker-kept :
      (m : Moment) (event : ℕ) (w : Worker)
      → KeptInTick P m
      → P w
      → P (tick_worker m event w).worker
  unfolding tick_worker set_up_worker
  tick_worker-kept m event w k p =
      let begun : Worker = record w { last_tick_ts = some m.now } in
      let w' = set_up_worker m w in
      let p' = k.setting_up begun (k.begin m.now w p) in
      elim (Bool-cases (not m.has_model || m.busy)) [
        | inl idle ↦ rw idle p'
        | inr works ↦ rw works (set_up-kept m.setup_error m event w' k p')
      ]
