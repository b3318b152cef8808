-- ===== src/Live/Watermark.antt =====
-- The watermark of the live-identification worker (compute/learning/live_identify.py) over one tick,
-- whatever the other threads call meanwhile.
use Prim.Native.String.{String}
use cat_automation.Prelude.{
  ℕ, suc, ◌≡◌, ◌<◌, refl, inl, inr, ◌⊎◌, true, false, Option, none, some, List, [], ◌∷◌, ◌||◌, not,
  ltb, leb, All, Bool-cases, if◌then◌else◌, subst, arith,
}
use cat_automation.Spans.Coalesce.{IdSpan}
use cat_automation.Store.Tables.{max_id}
use cat_automation.Visits.Counts.{visit_gap_ms}
use cat_automation.Visits.Closed.{closed_visits}
use cat_automation.Live.Worker.{
  Worker, Call, starts, stops, restores, resets, seed, start_worker, stop_worker, restore_worker,
  reset_watermark, answer, answer_all, event_is_set, advance_watermark,
}
use cat_automation.Live.Tick.{
  max_spans_per_tick, Turn, Moment, Visited, Identified, named, embed_cancelled, identify_failed,
  fail_tick, break_loop, save_span, after_identify, after_detect, visit_span, with_passed,
  span_loop, name_visits, name_from, name_beyond, set_up, set_up_worker, tick_worker,
}

-- A reset among the calls is one to `value`.
abbrev pub ResetsTo : ℕ → Call → Type 0
ResetsTo value (resets v) = v ≡ value
ResetsTo value _ = value ≡ value

pub record TurnResetsTo (value : ℕ) (turn : Turn) : Type 0 where
  pub before : All (ResetsTo value) turn.before
  pub detecting : All (ResetsTo value) turn.detecting
  pub identifying : All (ResetsTo value) turn.identifying
  pub saving : All (ResetsTo value) turn.saving

pub record MomentResetsTo (value : ℕ) (m : Moment) : Type 0 where
  pub reading : All (ResetsTo value) m.reading
  pub clamping : All (ResetsTo value) m.clamping
  pub turn : (i : ℕ) → TurnResetsTo value (m.turn i)

-- The last span's end, or `watermark` where there is none.
unfoldable pub last_end : ℕ → List IdSpan → ℕ
last_end watermark [] = watermark
last_end watermark (span ∷ spans) = last_end span.end_id spans

-- Where the tick begins to look for visits.
unfoldable pub clamped : ℕ → ℕ → ℕ
clamped latest watermark = if ltb latest watermark then latest else watermark

-- The watermark is `base` since the tick's snapshot of `epoch`, or `value` where a reset landed.
abbrev pub Marked : ℕ → ℕ → ℕ → Worker → Type 0
Marked epoch base value w =
    (w.seed_horizon ≡ false)
    × ((w.epoch ≡ epoch) × (w.watermark ≡ base) ⊎ (epoch < w.epoch) × (w.watermark ≡ value))

module _ (epoch value : ℕ) where
  answer-Marked :
      (base : ℕ) (call : Call) (w : Worker)
      → ResetsTo value call
      → Marked epoch base value w
      → Marked epoch base value (answer call w)
  unfolding answer start_worker stop_worker restore_worker reset_watermark seed
  answer-Marked base (starts horizon) w r m = ground (arith, r, m)
  answer-Marked base (stops persist) w r m = ground (arith, r, m)
  answer-Marked base (restores flag horizon) w r m = ground (arith, r, m)
  answer-Marked base (resets v) w r m = ground (arith, r, m)

  answer_all-Marked :
      (base : ℕ) (calls : List Call) (w : Worker)
      → All (ResetsTo value) calls
      → Marked epoch base value w
      → Marked epoch base value (answer_all calls w)
  unfolding answer_all
  answer_all-Marked base [] w r m = m
  answer_all-Marked base (call ∷ calls) w r m =
      answer_all-Marked base calls (answer call w) r.1 (answer-Marked base call w r.0 m)

  advance_watermark-Marked :
      (base end_id : ℕ) (saving : List Call) (w : Worker)
      → All (ResetsTo value) saving
      → Marked epoch base value w
      → Marked epoch end_id value (advance_watermark saving end_id epoch w).0
  unfolding advance_watermark
  advance_watermark-Marked base end_id saving w r m =
      ground (arith, m, answer_all-Marked end_id saving (record w { watermark = end_id }) r)

  -- The mark after a turn for `span`, and that the loop goes on only after both passes.
  abbrev TurnMarked : ℕ → IdSpan → Visited → Type 0
  TurnMarked base span v =
      Marked epoch (if v.passed then span.end_id else base) value v.worker
      × (v.goes_on ≡ true → v.passed ≡ true)

  after_identify-Marked :
      (base : ℕ) (end : Identified) (turn : Turn) (span : IdSpan) (w : Worker)
      → TurnResetsTo value turn
      → Marked epoch base value w
      → TurnMarked base span (after_identify end turn epoch span w)
  unfolding after_identify save_span break_loop fail_tick
  after_identify-Marked base named turn span w r m =
      (advance_watermark-Marked base span.end_id turn.saving w r.saving m, λ e. refl)
  after_identify-Marked base embed_cancelled turn span w r m = (m, λ e. cc)
  after_identify-Marked base (identify_failed error) turn span w r m = (m, λ e. cc)

  after_detect-Marked :
      (base : ℕ) (error : Option String) (turn : Turn) (event : ℕ) (span : IdSpan) (w : Worker)
      → TurnResetsTo value turn
      → Marked epoch base value w
      → TurnMarked base span (after_detect error turn event epoch span w)
  unfolding after_detect break_loop fail_tick
  after_detect-Marked base (some error) turn event span w r m = (m, λ e. cc)
  after_detect-Marked base none turn event span w r m = elim (Bool-cases (event_is_set event w)) [
    | inl set ↦ rw set (m, λ e. cc)
    | inr clear ↦ rw clear (
        after_identify-Marked base turn.identified turn span (answer_all turn.identifying w) r
          (answer_all-Marked base turn.identifying w r.identifying m))
  ]

  visit_span-Marked :
      (base : ℕ) (turn : Turn) (event : ℕ) (span : IdSpan) (w : Worker)
      → TurnResetsTo value turn
      → Marked epoch base value w
      → TurnMarked base span (visit_span turn event epoch span w)
  unfolding visit_span break_loop
  visit_span-Marked base turn event span w r m =
      let w' = answer_all turn.before w in
      let m' = answer_all-Marked base turn.before w r.before m in
      elim (Bool-cases (event_is_set event w' || turn.busy)) [
        | inl yields ↦ rw yields (m', λ e. cc)
        | inr clear ↦ rw clear (
            after_detect-Marked base turn.detect_error turn event span
              (answer_all turn.detecting w') r
              (answer_all-Marked base turn.detecting w' r.detecting m'))
      ]

  last_turn :
      (base : ℕ) (span : IdSpan) (v : Visited)
      → Marked epoch (if v.passed then span.end_id else base) value v.worker
      → Marked epoch (last_end base (with_passed v.passed span [])) value v.worker
  unfolding last_end with_passed
  last_turn base span v m = elim (Bool-cases v.passed) [
    | inl e ↦ rw e (subst (λ p. Marked epoch (if p then span.end_id else base) value v.worker) e m)
    | inr e ↦ rw e (subst (λ p. Marked epoch (if p then span.end_id else base) value v.worker) e m)
  ]

  span_loop-Marked :
      (base : ℕ) (turn : ℕ → Turn) (event i : ℕ) (spans : List IdSpan) (w : Worker)
      → ((k : ℕ) → TurnResetsTo value (turn k))
      → Marked epoch base value w
      → let t = span_loop turn event epoch i spans w in
        Marked epoch (last_end base t.passed) value t.worker
  unfolding span_loop last_end with_passed
  span_loop-Marked base turn event i [] w r m = m
  span_loop-Marked base turn event i (span ∷ spans) w r m =
      let v = visit_span (turn i) event epoch span w in
      let (marked, passes) = visit_span-Marked base (turn i) event span w (r i) m in
      elim (Bool-cases (leb max_spans_per_tick i)) [
        | inl full ↦ rw full m
        | inr below ↦ elim (Bool-cases v.goes_on) [
          | inl on ↦
              rw (below, on, passes on)
                (span_loop-Marked span.end_id turn event (suc i) spans v.worker r (
                  subst (λ p. Marked epoch (if p then span.end_id else base) value v.worker)
                    (passes on) marked))
          | inr off ↦ rw (below, off) (last_turn base span v marked)
        ]
      ]

name_from-Marked :
    (m : Moment) (event value epoch watermark : ℕ) (w : Worker)
    → Marked epoch watermark value w
    → MomentResetsTo value m
    → let t = name_from m event epoch watermark w in
      Marked epoch
        (last_end (clamped (max_id m.frames_at_latest) watermark) t.passed)
        value
        t.worker
unfolding name_from name_visits clamped last_end
name_from-Marked m event value epoch watermark w now_marked r =
    let latest = max_id m.frames_at_latest in
    let (w', advanced) = advance_watermark m.clamping latest epoch w in
    let marked =
      advance_watermark-Marked epoch value watermark latest m.clamping w r.clamping now_marked in
    let visits : ℕ → List IdSpan =
      λ since. closed_visits (some since) m.now visit_gap_ms m.frames in
    elim (Bool-cases (ltb latest watermark)) [
      | inl above ↦ elim (Bool-cases advanced) [
        | inl on ↦
            rw (above, on)
              (span_loop-Marked epoch value latest m.turn event 0 (visits latest) w' r.turn marked)
        | inr off ↦ rw (above, off) marked
      ]
      | inr below ↦ rw below (
          span_loop-Marked epoch value watermark m.turn event 0 (visits watermark) w r.turn
            now_marked)
    ]

name_beyond-Marked :
    (m : Moment) (event value : ℕ) (w : Worker)
    → w.seed_horizon ≡ false
    → MomentResetsTo value m
    → let t = name_beyond m event w in
      Marked w.epoch
        (last_end (clamped (max_id m.frames_at_latest) w.watermark) t.passed)
        value
        t.worker
unfolding name_beyond
name_beyond-Marked m event value w s r =
    name_from-Marked m event value w.epoch w.watermark (answer_all m.reading w)
      (answer_all-Marked w.epoch value w.watermark m.reading w r.reading (s, inl (refl, refl))) r

set_up-Marked :
    (error : Option String) (m : Moment) (event value : ℕ) (w : Worker)
    → w.seed_horizon ≡ false
    → MomentResetsTo value m
    → let t = set_up error m event w in
      Marked w.epoch
        (last_end (clamped (max_id m.frames_at_latest) w.watermark) t.passed)
        value
        t.worker
      ⊎ (t.worker.epoch ≡ w.epoch) × (t.worker.watermark ≡ w.watermark) × (t.passed ≡ [])
unfolding set_up fail_tick
set_up-Marked none m event value w s r = inl (name_beyond-Marked m event value w s r)
set_up-Marked (some error) m event value w s r = inr (refl, refl, refl)

-- Once enabled, the worker does not seed its watermark again.
answer-enabled :
    (call : Call) (w : Worker) → w.seed_horizon ≡ false → (answer call w).seed_horizon ≡ false
unfolding answer start_worker stop_worker restore_worker reset_watermark seed
answer-enabled (starts horizon) w e = ground (arith, e)
answer-enabled (stops persist) w e = ground (arith, e)
answer-enabled (restores flag horizon) w e = ground (arith, e)
answer-enabled (resets v) w e = ground (arith, e)

answer_all-enabled :
    (calls : List Call) (w : Worker)
    → w.seed_horizon ≡ false
    → (answer_all calls w).seed_horizon ≡ false
unfolding answer_all
answer_all-enabled [] w e = e
answer_all-enabled (call ∷ calls) w e =
    answer_all-enabled calls (answer call w) (answer-enabled call w e)

-- Where every reset that lands after the tick's snapshot of epoch and watermark re-points the watermark
-- at `value`, whatever is called before the snapshot, and the worker was enabled once: at the tick's end,
-- the watermark is `value` where one landed after the snapshot; where none did, it is the end of the last
-- span that both passes ended for, or, where there is no such span, what it was at the snapshot, or the
-- latest id where it stood above that and the tick came to read it.
pub tick_worker-watermark :
    (m : Moment) (event value : ℕ) (w : Worker)
    → w.seed_horizon ≡ false
    → MomentResetsTo value m
    → let t = tick_worker m event w in
      let latest = max_id m.frames_at_latest in
      let at_snapshot = set_up_worker m w in
      ((t.worker.epoch ≡ at_snapshot.epoch)
        × ((t.worker.watermark ≡ last_end (clamped latest at_snapshot.watermark) t.passed)
            ⊎ (t.worker.watermark ≡ at_snapshot.watermark) × (t.passed ≡ [])))
      ⊎ (at_snapshot.epoch < t.worker.epoch) × (t.worker.watermark ≡ value)
unfolding tick_worker
tick_worker-watermark m event value w s r =
    let w' = set_up_worker m w in
    let enabled : w'.seed_horizon ≡ false =
      unfold set_up_worker in
      answer_all-enabled m.setting_up (record w { last_tick_ts = some m.now }) s in
    elim (Bool-cases (not m.has_model || m.busy)) [
      | inl idle ↦ rw idle (inl (refl, inr (refl, refl)))
      | inr works ↦
          rw works (ground (arith, set_up-Marked m.setup_error m event value w' enabled r))
    ]
