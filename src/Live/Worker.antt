-- ===== src/Live/Worker.antt =====
-- The state of `LiveIdentifyManager` (compute/learning/live_identify.py) and its lifecycle calls. Each
-- call is one function; a call that lands between the two halves of `_advance_watermark` is an
-- argument of that function.
use Prim.Native.String.{String}
use cat_automation.Prelude.{
  ℕ, suc, Bool, true, false, Option, none, some, List, [], ◌∷◌, ◌==◌, ◌||◌, not, if◌then◌else◌,
}

-- The events that `start` made are numbered, and `start_event` is the last one. Every earlier event was
-- set before its worker was replaced; `stopping` is the flag of the last one.
pub record Worker : Type 0 where
  pub running : Bool
  pub stop_event : ℕ
  pub stopping : Bool
  pub watermark : ℕ
  pub seed_horizon : Bool
  pub epoch : ℕ
  pub last_tick_ts : Option ℕ
  pub last_error : Option String
  pub saved_watermark : Option ℕ
  pub saved_intent : Option Bool

-- The values of the two settings keys.
pub record Settings : Type 0 where
  pub watermark : Option ℕ
  pub intent : Option Bool

unfoldable pub settings : Worker → Settings
settings w = record { watermark = w.saved_watermark; intent = w.saved_intent }

-- `__init__`
unfoldable pub new_worker : Settings → Worker
new_worker s = record {
  running = false;
  stop_event = 0;
  stopping = false;
  watermark = elim s.watermark [ none ↦ 0 | some raw ↦ raw ];
  seed_horizon = elim s.watermark [ none ↦ true | some raw ↦ false ];
  epoch = 0;
  last_tick_ts = none;
  last_error = none;
  saved_watermark = s.watermark;
  saved_intent = s.intent;
}

-- `stop_event.is_set()` for the event numbered `event`.
unfoldable pub event_is_set : ℕ → Worker → Bool
event_is_set event w = not (event == w.stop_event) || w.stopping

-- The seeding at the first `start`; `horizon` is the store's latest id.
unfoldable pub seed : ℕ → Worker → Worker
seed horizon w =
    if w.seed_horizon
    then record w { saved_watermark = some horizon; watermark = horizon; seed_horizon = false }
    else w

unfoldable pub start_worker : ℕ → Worker → Worker
unfolding seed
start_worker horizon w =
    let seeded = seed horizon w in
    if seeded.running then seeded else record seeded {
      stop_event = suc seeded.stop_event;
      stopping = false;
      running = true;
      saved_intent = some true;
    }

unfoldable pub stop_worker : Bool → Worker → Worker
stop_worker persist w =
    let stopped : Worker = record w { stopping = true; running = false } in
    if w.running
    then (if persist then record stopped { saved_intent = some false } else stopped)
    else w

-- `restore`
unfoldable pub restore_worker : Bool → ℕ → Worker → Worker
unfolding start_worker
restore_worker flag horizon w = if flag then start_worker horizon w else w

unfoldable pub reset_watermark : ℕ → Worker → Worker
reset_watermark value w =
    let invalidated : Worker = record w { epoch = suc w.epoch } in
    if w.seed_horizon
    then invalidated
    else record invalidated { watermark = value; saved_watermark = some value }

pub data Call : Type 0 where
  starts : ℕ → Call
  stops : Bool → Call
  restores : Bool → ℕ → Call
  resets : ℕ → Call

unfoldable pub answer : Call → Worker → Worker
unfolding start_worker stop_worker restore_worker reset_watermark
answer (starts horizon) w = start_worker horizon w
answer (stops persist) w = stop_worker persist w
answer (restores flag horizon) w = restore_worker flag horizon w
answer (resets value) w = reset_watermark value w

unfoldable pub answer_all : List Call → Worker → Worker
unfolding answer
answer_all [] w = w
answer_all (call ∷ calls) w = answer_all calls (answer call w)

-- `_advance_watermark`, and what it returns. `saving` are the calls of other threads after the lock is
-- free and before the setting is written.
unfoldable pub advance_watermark : List Call → ℕ → ℕ → Worker → Worker × Bool
unfolding answer_all
advance_watermark saving value epoch w =
    let w' = answer_all saving (record w { watermark = value }) in
    if epoch == w.epoch then (record w' { saved_watermark = some value }, true) else (w, false)
