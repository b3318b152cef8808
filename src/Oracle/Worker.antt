-- ===== src/Oracle/Worker.antt =====
-- The state of `YoloOracleManager` (compute/learning/yolo_oracle.py) and its lifecycle calls. `horizon` is the
-- store's latest id at the call.
use Prim.Native.String.{String}
use cat_automation.Prelude.{
  ℕ, suc, Bool, true, false, Option, none, some, List, [], ◌∷◌, ◌==◌, ◌||◌, not, if◌then◌else◌,
}

-- The events that `start` made are numbered, and `stop_event` is the last one. Every earlier event was
-- set before its worker was replaced; `stopping` is the flag of the last one.
pub record Oracle : Type 0 where
  pub running : Bool
  pub stop_event : ℕ
  pub stopping : Bool
  pub watermark : ℕ
  pub epoch : ℕ
  pub last_tick_ts : Option ℕ
  pub last_error : Option String
  pub saved_watermark : Option ℕ
  pub saved_intent : Option Bool

-- `__init__`, with the saved watermark and intent.
unfoldable pub new_oracle : Option ℕ → Option Bool → Oracle
new_oracle saved_watermark saved_intent = record {
  running = false;
  stop_event = 0;
  stopping = false;
  watermark = elim saved_watermark [ none ↦ 0 | some raw ↦ raw ];
  epoch = 0;
  last_tick_ts = none;
  last_error = none;
  saved_watermark = saved_watermark;
  saved_intent = saved_intent;
}

unfoldable pub oracle_event_is_set : ℕ → Oracle → Bool
oracle_event_is_set event o = not (event == o.stop_event) || o.stopping

-- `_seed_watermark`
unfoldable pub seed_watermark : ℕ → Oracle → Oracle
seed_watermark value o = record o {
  epoch = suc o.epoch;
  watermark = value;
  saved_watermark = some value;
}

unfoldable pub start_oracle : ℕ → Oracle → Oracle
unfolding seed_watermark
start_oracle horizon o = if o.running then o else record (seed_watermark horizon o) {
  stop_event = suc o.stop_event;
  stopping = false;
  running = true;
  saved_intent = some true;
}

unfoldable pub stop_oracle : Bool → Oracle → Oracle
stop_oracle persist o =
    let stopped : Oracle = record o { stopping = true; running = false } in
    if o.running
    then (if persist then record stopped { saved_intent = some false } else stopped)
    else o

-- `restore`
unfoldable pub restore_oracle : Bool → ℕ → Oracle → Oracle
unfolding start_oracle
restore_oracle flag horizon o = if flag then start_oracle horizon o else o

-- `start`, `stop`, `restore` and `reset_watermark`.
pub data OracleCall : Type 0 where
  oracle_starts : ℕ → OracleCall
  oracle_stops : Bool → OracleCall
  oracle_restores : Bool → ℕ → OracleCall
  oracle_resets : ℕ → OracleCall

unfoldable pub oracle_answer : OracleCall → Oracle → Oracle
unfolding start_oracle stop_oracle restore_oracle seed_watermark
oracle_answer (oracle_starts horizon) o = start_oracle horizon o
oracle_answer (oracle_stops persist) o = stop_oracle persist o
oracle_answer (oracle_restores flag horizon) o = restore_oracle flag horizon o
oracle_answer (oracle_resets value) o = seed_watermark value o

unfoldable pub oracle_answers : List OracleCall → Oracle → Oracle
unfolding oracle_answer
oracle_answers [] o = o
oracle_answers (call ∷ calls) o = oracle_answers calls (oracle_answer call o)

-- `_advance_watermark`, and what it returns. `saving` are the calls of other threads after the lock is
-- free and before the setting is written.
unfoldable pub advance_oracle : List OracleCall → ℕ → ℕ → Oracle → Oracle × Bool
unfolding oracle_answers
advance_oracle saving value epoch o =
    let o' = oracle_answers saving (record o { watermark = value }) in
    if epoch == o.epoch then (record o' { saved_watermark = some value }, true) else (o, false)
