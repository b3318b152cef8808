-- ===== src/Tests/Oracle.antt =====
-- The sweep of new frames (compute/learning/yolo_oracle.py) over a backlog of 2600 ids.
use cat_automation.Prelude.{suc, ◌≡◌, ◌<◌, refl, ◌⊎◌, true, false, none, some, [], ◌∷◌, arith}
use cat_automation.Live.Watermark.{last_end, clamped}
use cat_automation.Oracle.Worker.{
  Oracle, new_oracle, start_oracle, oracle_event_is_set, oracle_resets, oracle_stops, oracle_starts,
}
use cat_automation.Oracle.Tick.{Chunk, OracleMoment, oracle_at_snapshot, tick_oracle}
use cat_automation.Oracle.Tiles.{IsQuietAt, Tiles, run_ticks, run_ticks-catches_up}
use cat_automation.Oracle.Seeded.{tick_oracle-watermark}

abbrev quiet_chunk : Chunk
quiet_chunk = record { before = []; busy = false; detecting = []; detect_error = none; saving = [] }

abbrev quiet : OracleMoment
quiet = record {
  now = 5;
  busy = false;
  setup_error = none;
  setting_up = [];
  reading = [];
  latest = 3600;
  clamping = [];
  chunk = λ i. quiet_chunk;
}

-- The worker after its start, when the latest id was 1000.
abbrev on : Oracle
on = start_oracle 1000 (new_oracle (some 40) none)

small_window :
    (tick_oracle (record quiet { latest = 1300 }) 1 on).swept
    ≡ record { start_id = 1001; end_id = 1256 } ∷ record { start_id = 1257; end_id = 1300 } ∷ []
unfolding tick_oracle start_oracle new_oracle
small_window = refl

quiet-IsQuietAt : IsQuietAt 3600 quiet
quiet-IsQuietAt = record {
  free = refl;
  is_set_up = refl;
  setting_up = refl;
  reading = refl;
  clamping = refl;
  chunk =
      λ i. record { before = refl; free = refl; detecting = refl; detected = refl; saving = refl };
  same_latest = refl;
}

run_ticks-catches_up_example :
    let t = run_ticks (quiet ∷ quiet ∷ []) 1 on in
    (t.worker.watermark ≡ 3600) × Tiles (suc on.watermark) 3600 t.swept
run_ticks-catches_up_example =
    run_ticks-catches_up (quiet ∷ quiet ∷ []) 1 3600 on (quiet-IsQuietAt, (quiet-IsQuietAt, tt))
      (unfold oracle_event_is_set start_oracle new_oracle in refl)
      (unfold start_oracle new_oracle in omega arith)
      (unfold start_oracle new_oracle in omega arith)

-- The store is wiped while the analyzer is made; the operator stops and starts the worker, and the store is
-- wiped again, while a window is swept.
abbrev restarted : OracleMoment
restarted = record quiet {
  setting_up = oracle_resets 7 ∷ [];
  chunk = λ i. record quiet_chunk {
    detecting = oracle_stops true ∷ oracle_starts 0 ∷ oracle_resets 0 ∷ [];
  };
}

tick_oracle-watermark_example :
    let t = tick_oracle restarted 1 on in
    let at_snapshot = oracle_at_snapshot restarted on in
    ((t.worker.epoch ≡ at_snapshot.epoch)
      × ((t.worker.watermark ≡ last_end (clamped 3600 at_snapshot.watermark) t.swept)
          ⊎ (t.worker.watermark ≡ at_snapshot.watermark) × (t.swept ≡ [])))
    ⊎ (at_snapshot.epoch < t.worker.epoch) × (t.worker.watermark ≡ 0)
tick_oracle-watermark_example = tick_oracle-watermark restarted 1 0 on (record {
  reading = tt;
  clamping = tt;
  chunk = λ i. record { before = tt; detecting = (refl, (refl, (refl, tt))); saving = tt };
})
