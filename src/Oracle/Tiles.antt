-- ===== src/Oracle/Tiles.antt =====
-- The windows that ticks of `YoloOracleManager` (compute/learning/yolo_oracle.py) sweep, where nothing
-- interferes.
use cat_automation.Prelude.{
  ℕ, zero, suc, ◌+◌, ◌-◌, ◌*◌, ◌≤◌, ◌<◌, ◌≡◌, refl, sym, ap, subst, ◌∙◌, inl, inr, true, false,
  none, some, List, [], ◌∷◌, ◌++◌, ltb, min, All, length, Bool-cases, ==_refl, if◌then◌else◌, arith,
}
use cat_automation.Spans.Coalesce.{IdSpan}
use cat_automation.Oracle.Worker.{Oracle, oracle_event_is_set, oracle_answers, advance_oracle}
use cat_automation.Oracle.Tick.{
  max_frames_per_tick, chunk_size, Chunk, OracleMoment, OracleTicked, save_chunk,
  after_chunk_detect, sweep_chunk, with_window, chunk_loop, sweep_beyond, sweep_from, sweep_window,
  set_up_oracle, oracle_at_snapshot, tick_oracle,
}

-- The windows follow each other from `lo` to `until` with no gap and no overlap, each of them with one id
-- to `chunk_size` ids.
abbrev pub Tiles : ℕ → ℕ → List IdSpan → Type 0
Tiles lo until [] = lo ≡ suc until
Tiles lo until (c ∷ chunks) =
    (c.start_id ≡ lo)
    × (lo ≤ c.end_id)
    × (c.end_id < lo + chunk_size)
    × Tiles (suc c.end_id) until chunks

pub record IsQuietChunk (chunk : Chunk) : Type 0 where
  pub before : chunk.before ≡ []
  pub free : chunk.busy ≡ false
  pub detecting : chunk.detecting ≡ []
  pub detected : chunk.detect_error ≡ none
  pub saving : chunk.saving ≡ []

-- Nothing interferes with the tick, and the latest id is `latest`.
pub record IsQuietAt (latest : ℕ) (m : OracleMoment) : Type 0 where
  pub free : m.busy ≡ false
  pub is_set_up : m.setup_error ≡ none
  pub setting_up : m.setting_up ≡ []
  pub reading : m.reading ≡ []
  pub clamping : m.clamping ≡ []
  pub chunk : (i : ℕ) → IsQuietChunk (m.chunk i)
  pub same_latest : m.latest ≡ latest

-- The worker with its watermark at `value`, in memory and saved.
abbrev pub swept_to : ℕ → Oracle → Oracle
swept_to value o = record o { watermark = value; saved_watermark = some value }

module _ (event : ℕ) where
  sweep_chunk_quiet :
      (chunk : Chunk) (hi : ℕ) (o : Oracle)
      → IsQuietChunk chunk
      → oracle_event_is_set event o ≡ false
      → sweep_chunk chunk event o.epoch hi o
        ≡ record { worker = swept_to hi o; goes_on = true; completed = true }
  unfolding sweep_chunk after_chunk_detect save_chunk advance_oracle oracle_answers
  sweep_chunk_quiet chunk hi o q clear =
      simp (q.before, q.free, q.detecting, q.detected, q.saving, clear, ==_refl o.epoch)

  -- The windows of the loop, and its worker.
  abbrev Reached : ℕ → ℕ → Oracle → OracleTicked → Type 0
  Reached lo until o t =
      Tiles lo until t.swept × (t.worker ≡ (if ltb until lo then o else swept_to until o))

  last_window :
      (hi until : ℕ) (o : Oracle)
      → hi ≤ until
      → (if ltb until (suc hi) then swept_to hi o else swept_to until (swept_to hi o))
        ≡ swept_to until o
  last_window hi until o h = elim (Bool-cases (ltb until (suc hi))) [
    | inl over ↦ rw over (ap (λ value. swept_to value o) (ground (arith, over, h)))
    | inr more ↦ rw more refl
  ]

  chunk_loop_quiet :
      (fuel : ℕ) (chunk : ℕ → Chunk) (until i lo : ℕ) (o : Oracle)
      → ((k : ℕ) → IsQuietChunk (chunk k))
      → oracle_event_is_set event o ≡ false
      → lo ≤ suc until
      → until < lo + fuel
      → Reached lo until o (chunk_loop fuel chunk event o.epoch until i lo o)
  unfolding chunk_loop with_window oracle_event_is_set
  chunk_loop_quiet zero chunk until i lo o q clear h f =
      let over : ltb until lo ≡ true = ground (arith, f) in (omega (arith, h, f), rw over refl)
  chunk_loop_quiet (suc fuel) chunk until i lo o q clear h f =
      let hi = min (lo + chunk_size - 1) until in
      elim (Bool-cases (ltb until lo)) [
        | inl over ↦ rw over (ground (arith, over, h), refl)
        | inr more ↦
            let (tiles, worker) =
              chunk_loop_quiet fuel chunk until (suc i) (suc hi) (swept_to hi o) q clear
                (omega arith) (ground (arith, more, f)) in
            rw (more, sweep_chunk_quiet (chunk i) hi o (q i) clear)
              (
                (refl, ground (arith, more), ground (arith, more), tiles),
                worker ∙ last_window hi until o (omega arith),
              )
      ]

  -- How far a tick gets that begins behind `since`.
  abbrev tick_end : ℕ → ℕ → ℕ
  tick_end latest since = min latest (since + max_frames_per_tick)

  abbrev TickTiles : ℕ → ℕ → OracleTicked → Type 0
  TickTiles latest since t =
      Tiles (suc since) (tick_end latest since) t.swept
      × (t.worker.watermark ≡ tick_end latest since)
      × (oracle_event_is_set event t.worker ≡ false)

  Reached-fields :
      (until since : ℕ) (o : Oracle) (t : OracleTicked)
      → oracle_event_is_set event o ≡ false
      → o.watermark ≡ since
      → since ≤ until
      → Reached (suc since) until o t
      → Tiles (suc since) until t.swept
        × (t.worker.watermark ≡ until)
        × (oracle_event_is_set event t.worker ≡ false)
  unfolding oracle_event_is_set
  Reached-fields until since o t clear w h (tiles, worker) =
      elim (Bool-cases (ltb until (suc since))) [
        | inl over ↦
            let same : t.worker ≡ o = worker ∙ rw over refl in
            (
              tiles,
              ap (λ (v : Oracle). v.watermark) same ∙ ground (arith, w, h, over),
              ap (λ v. oracle_event_is_set event v) same ∙ clear,
            )
        | inr more ↦
            let same : t.worker ≡ swept_to until o = worker ∙ rw more refl in
            (
              tiles,
              ap (λ (v : Oracle). v.watermark) same,
              ap (λ v. oracle_event_is_set event v) same ∙ clear,
            )
      ]

  sweep_beyond_quiet :
      (m : OracleMoment) (latest since : ℕ) (o : Oracle)
      → IsQuietAt latest m
      → oracle_event_is_set event o ≡ false
      → o.watermark ≡ since
      → since ≤ latest
      → TickTiles latest since (sweep_beyond m event o.epoch since o)
  unfolding sweep_beyond oracle_event_is_set
  sweep_beyond_quiet m latest since o q clear w h =
      let until = tick_end m.latest since in
      let t = chunk_loop (suc (until - since)) m.chunk event o.epoch until 0 (suc since) o in
      let reached =
        chunk_loop_quiet (suc (until - since)) m.chunk until 0 (suc since) o q.chunk clear
          (omega (arith, h, q.same_latest)) (omega (arith, h, q.same_latest)) in
      subst
        (λ end.
          Tiles (suc since) end t.swept
          × (t.worker.watermark ≡ end)
          × (oracle_event_is_set event t.worker ≡ false))
        (ap (λ n. tick_end n since) q.same_latest)
        (Reached-fields until since o t clear w (omega (arith, h, q.same_latest)) reached)

  sweep_window_quiet :
      (m : OracleMoment) (latest : ℕ) (o : Oracle)
      → IsQuietAt latest m
      → oracle_event_is_set event o ≡ false
      → TickTiles latest (min latest o.watermark) (sweep_window m event o)
  unfolding sweep_window sweep_from advance_oracle oracle_answers oracle_event_is_set
  sweep_window_quiet m latest o q clear = elim (Bool-cases (ltb m.latest o.watermark)) [
    | inl above ↦
        let since : m.latest ≡ min latest o.watermark = ground (arith, above, q.same_latest) in
        let beyond =
          sweep_beyond_quiet m latest m.latest (swept_to m.latest o) q clear refl
            (omega (arith, q.same_latest)) in
        rw (q.reading, above, q.clamping, ==_refl o.epoch)
          (subst
            (λ n. TickTiles latest n (sweep_beyond m event o.epoch m.latest (swept_to m.latest o)))
            since beyond)
    | inr below ↦
        let since : o.watermark ≡ min latest o.watermark = ground (arith, below, q.same_latest) in
        let beyond =
          sweep_beyond_quiet m latest o.watermark o q clear refl
            (ground (arith, below, q.same_latest)) in
        rw (q.reading, below)
          (subst (λ n. TickTiles latest n (sweep_beyond m event o.epoch o.watermark o)) since
            beyond)
  ]

-- A tick that has the GPU, that no call and no fault meets and whose worker is not stopped: the windows
-- that it sweeps tile the ids behind its watermark, or behind the latest id where the watermark stands
-- above that, up to the latest id or for `max_frames_per_tick` ids; the watermark is then their end.
tick_oracle-Tiles :
    (m : OracleMoment) (event latest : ℕ) (o : Oracle)
    → IsQuietAt latest m
    → oracle_event_is_set event o ≡ false
    → let t = tick_oracle m event o in
      let since = min latest o.watermark in
      let until = min latest (since + max_frames_per_tick) in
      Tiles (suc since) until t.swept
      × (t.worker.watermark ≡ until)
      × (oracle_event_is_set event t.worker ≡ false)
unfolding tick_oracle oracle_at_snapshot oracle_answers set_up_oracle oracle_event_is_set
tick_oracle-Tiles m event latest o q clear =
    let o' : Oracle = record o { last_tick_ts = some m.now } in
    rw (q.setting_up, q.free, q.is_set_up) (sweep_window_quiet event m latest o' q clear)

-- Ticks of one worker, one after the other.
unfoldable pub run_ticks : List OracleMoment → ℕ → Oracle → OracleTicked
unfolding tick_oracle
run_ticks [] event o = record { worker = o; swept = [] }
run_ticks (m ∷ moments) event o =
    let t = tick_oracle m event o in
    let rest = run_ticks moments event t.worker in
    record { worker = rest.worker; swept = t.swept ++ rest.swept }

Tiles-append :
    (lo mid until : ℕ) (xs ys : List IdSpan)
    → Tiles lo mid xs
    → Tiles (suc mid) until ys
    → Tiles lo until (xs ++ ys)
Tiles-append lo mid until [] ys a b = subst (λ n. Tiles n until ys) (sym a) b
Tiles-append lo mid until (c ∷ xs) ys a b =
    (a.0, a.1, a.2, Tiles-append (suc c.end_id) mid until xs ys a.3 b)

-- Ticks that nothing interferes with, on a store that grows no more, and enough of them for
-- `max_frames_per_tick` ids each: the worker catches up with the latest id, and the windows that the
-- ticks sweep tile the ids behind its first watermark, each id once and in order.
pub run_ticks-catches_up :
    (moments : List OracleMoment) (event latest : ℕ) (o : Oracle)
    → All (IsQuietAt latest) moments
    → oracle_event_is_set event o ≡ false
    → o.watermark ≤ latest
    → latest ≤ o.watermark + length moments * max_frames_per_tick
    → let t = run_ticks moments event o in
      (t.worker.watermark ≡ latest) × Tiles (suc o.watermark) latest t.swept
unfolding run_ticks
run_ticks-catches_up [] event latest o q clear h n = (omega (arith, h, n), omega (arith, h, n))
run_ticks-catches_up (m ∷ moments) event latest o q clear h n =
    let t = tick_oracle m event o in
    let end = min latest (min latest o.watermark + max_frames_per_tick) in
    let (tiles, w, still_clear) = tick_oracle-Tiles m event latest o q.0 clear in
    let (caught_up, rest) =
      run_ticks-catches_up moments event latest t.worker q.1 still_clear (omega (arith, w))
        (omega (arith, w, n)) in
    (
      caught_up,
      Tiles-append (suc o.watermark) end latest t.swept (run_ticks moments event t.worker).swept
          (subst (λ k. Tiles (suc k) end t.swept) (omega (arith, h)) tiles)
          (subst (λ k. Tiles (suc k) latest (run_ticks moments event t.worker).swept) w rest),
    )
