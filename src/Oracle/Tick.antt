-- ===== src/Oracle/Tick.antt =====
-- `YoloOracleManager._tick` (compute/learning/yolo_oracle.py). What the tick meets is an argument. The coverage
-- mode, which the tick hands to the detect pass unread, is left out.
use Prim.Native.String.{String}
use cat_automation.Prelude.{
  ℕ, zero, suc, ◌+◌, ◌-◌, Bool, true, false, Option, none, some, List, [], ◌∷◌, ◌||◌, ltb, min,
  if◌then◌else◌,
}
use cat_automation.Spans.Coalesce.{IdSpan}
use cat_automation.Oracle.Worker.{
  Oracle, OracleCall, oracle_event_is_set, oracle_answers, advance_oracle,
}

abbrev pub max_frames_per_tick : ℕ
max_frames_per_tick = 2000

abbrev pub chunk_size : ℕ
chunk_size = 256

-- What one round of the loop meets: the calls before its checks, `is_busy`, the calls during the detect
-- pass and its exception, and the calls while the watermark is saved.
pub record Chunk : Type 0 where
  pub before : List OracleCall
  pub busy : Bool
  pub detecting : List OracleCall
  pub detect_error : Option String
  pub saving : List OracleCall

-- What one tick meets before its loop: the time, `is_busy`, the exception of the analyzer's factory, the
-- calls before the snapshot of epoch and watermark, those between the snapshot and the clamp, and those
-- while a clamped watermark is saved, and `latest_id`.
pub record OracleMoment : Type 0 where
  pub now : ℕ
  pub busy : Bool
  pub setup_error : Option String
  pub setting_up : List OracleCall
  pub reading : List OracleCall
  pub latest : ℕ
  pub clamping : List OracleCall
  pub chunk : ℕ → Chunk

-- A round's end: the worker, and whether the loop goes on.
pub record Swept : Type 0 where
  pub worker : Oracle
  pub goes_on : Bool
  pub completed : Bool

-- A tick's end, with the windows whose detect pass completed.
pub record OracleTicked : Type 0 where
  pub worker : Oracle
  pub swept : List IdSpan

unfoldable pub fail_oracle : String → Oracle → Oracle
fail_oracle error o = record o { last_error = some error }

unfoldable pub break_sweep : Oracle → Swept
break_sweep o = record { worker = o; goes_on = false; completed = false }

unfoldable pub save_chunk : Chunk → ℕ → ℕ → Oracle → Swept
unfolding advance_oracle
save_chunk chunk epoch hi o =
    let (o', advanced) = advance_oracle chunk.saving hi epoch o in
    record { worker = o'; goes_on = advanced; completed = true }

unfoldable pub after_chunk_detect : Option String → Chunk → ℕ → ℕ → ℕ → Oracle → Swept
unfolding break_sweep fail_oracle save_chunk oracle_event_is_set
after_chunk_detect (some error) chunk event epoch hi o = break_sweep (fail_oracle error o)
after_chunk_detect none chunk event epoch hi o =
    let saved = save_chunk chunk epoch hi o in
    if oracle_event_is_set event o then break_sweep o else saved

-- The body of the loop for the window that ends at `hi`.
unfoldable pub sweep_chunk : Chunk → ℕ → ℕ → ℕ → Oracle → Swept
unfolding break_sweep oracle_event_is_set oracle_answers after_chunk_detect
sweep_chunk chunk event epoch hi o =
    let o' = oracle_answers chunk.before o in
    let detected = oracle_answers chunk.detecting o' in
    let v = after_chunk_detect chunk.detect_error chunk event epoch hi detected in
    if oracle_event_is_set event o' || chunk.busy then break_sweep o' else v

unfoldable pub with_window : Bool → ℕ → ℕ → List IdSpan → List IdSpan
with_window completed lo hi rest =
    if completed then record { start_id = lo; end_id = hi } ∷ rest else rest

-- The loop from `lo` on, which has more fuel than there are ids up to `until`.
unfoldable pub chunk_loop : ℕ → (ℕ → Chunk) → ℕ → ℕ → ℕ → ℕ → ℕ → Oracle → OracleTicked
unfolding sweep_chunk with_window
chunk_loop zero chunk event epoch until i lo o = record { worker = o; swept = [] }
chunk_loop (suc fuel) chunk event epoch until i lo o =
    let hi = min (lo + chunk_size - 1) until in
    let v = sweep_chunk (chunk i) event epoch hi o in
    let rest = chunk_loop fuel chunk event epoch until (suc i) (suc hi) v.worker in
    if ltb until lo
    then record { worker = o; swept = [] }
    else if v.goes_on
    then record { worker = rest.worker; swept = with_window v.completed lo hi rest.swept }
    else record { worker = v.worker; swept = with_window v.completed lo hi [] }

-- The windows beyond `watermark`.
unfoldable pub sweep_beyond : OracleMoment → ℕ → ℕ → ℕ → Oracle → OracleTicked
unfolding chunk_loop
sweep_beyond m event epoch watermark o =
    let until = min m.latest (watermark + max_frames_per_tick) in
    chunk_loop (suc (until - watermark)) m.chunk event epoch until 0 (suc watermark) o

-- The tick after its snapshot of epoch and watermark, with the clamp of a watermark above the latest id.
unfoldable pub sweep_from : OracleMoment → ℕ → ℕ → ℕ → Oracle → OracleTicked
unfolding advance_oracle sweep_beyond
sweep_from m event epoch watermark o =
    let (clamped, advanced) = advance_oracle m.clamping m.latest epoch o in
    let rest = sweep_beyond m event epoch m.latest clamped in
    if ltb m.latest watermark
    then (if advanced then rest else record { worker = clamped; swept = [] })
    else sweep_beyond m event epoch watermark o

-- The tick from the snapshot on.
unfoldable pub sweep_window : OracleMoment → ℕ → Oracle → OracleTicked
unfolding sweep_from oracle_answers
sweep_window m event o = sweep_from m event o.epoch o.watermark (oracle_answers m.reading o)

unfoldable pub set_up_oracle : Option String → OracleMoment → ℕ → Oracle → OracleTicked
unfolding fail_oracle sweep_window
set_up_oracle (some error) m event o = record { worker = fail_oracle error o; swept = [] }
set_up_oracle none m event o = sweep_window m event o

-- The worker when the tick takes its snapshot, or when it returns before that.
unfoldable pub oracle_at_snapshot : OracleMoment → Oracle → Oracle
unfolding oracle_answers
oracle_at_snapshot m o = oracle_answers m.setting_up (record o { last_tick_ts = some m.now })

-- `_tick` of a worker whose stop event is the one numbered `event`.
unfoldable pub tick_oracle : OracleMoment → ℕ → Oracle → OracleTicked
unfolding set_up_oracle oracle_at_snapshot
tick_oracle m event o =
    let o' = oracle_at_snapshot m o in
    if m.busy then record { worker = o'; swept = [] } else set_up_oracle m.setup_error m event o'
