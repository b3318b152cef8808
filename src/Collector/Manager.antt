-- ===== src/Collector/Manager.antt =====
-- `CollectorManager` (compute/collection/collector.py) and the calls of it that reach a run. Each call is
-- one function on the manager and the store, but for `set_motion_only`, which is two. Joining an old thread
-- is left out, and the writes to the store of these calls do not fail.
use cat_automation.Prelude.{
  ℕ, zero, suc, Bool, true, false, Option, none, some, List, [], ◌∷◌, ◌++◌, ◌==◌, ◌||◌, not,
  if◌then◌else◌,
}
use cat_automation.Store.Tables.{Store}
use cat_automation.Store.Mode.{record_mode_change}

-- The events that `start` made are numbered, and `stop_event` is the last one; every earlier one was
-- set before its thread was replaced. `saved` is the setting `motion_only`.
pub record CollectorManager : Type 0 where
  pub has_client : Bool
  pub running : Bool
  pub stop_event : ℕ
  pub stopping : Bool
  pub motion_only : Bool
  pub saved : Option Bool

-- `__init__`
unfoldable pub new_collector : Bool → Option Bool → CollectorManager
new_collector has_client saved = record {
  has_client = has_client;
  running = false;
  stop_event = 0;
  stopping = false;
  motion_only = false;
  saved = saved;
}

unfoldable pub start_manager : CollectorManager → CollectorManager
start_manager m =
    if m.running || not m.has_client
    then m
    else record m { stop_event = suc m.stop_event; stopping = false; running = true }

unfoldable pub stop_manager : CollectorManager → CollectorManager
stop_manager m = if m.running then record m { stopping = true; running = false } else m

unfoldable pub restore_motion_only : Bool → CollectorManager → CollectorManager
restore_motion_only value m = record m { motion_only = value }

-- `stop_event.is_set()` for the event numbered `event`.
unfoldable pub is_stopped : ℕ → CollectorManager → Bool
is_stopped event m = not (event == m.stop_event) || m.stopping

unfoldable pub same_mode : Bool → Bool → Bool
same_mode true b = b
same_mode false b = not b

-- A call of `set_motion_only` between its lock and its writes to the store.
pub record Toggle : Type 0 where
  pub value : Bool
  pub changed : Bool

-- The manager and the store that a run shares with the callers, and the calls of `set_motion_only` that have
-- set the flag and have not written to the store yet.
pub record Shared : Type 0 where
  pub manager : CollectorManager
  pub store : Store
  pub toggles : List Toggle

-- The first half of `set_motion_only`, under the manager's lock.
unfoldable pub flip_motion_only : Bool → Shared → Shared
unfolding same_mode
flip_motion_only value w = record {
  manager = record (w.manager) { motion_only = value };
  store = w.store;
  toggles =
      w.toggles
      ++ (record { value = value; changed = not (same_mode value w.manager.motion_only) } ∷ []);
}

-- The second half, for the call that set the flag as `t` tells.
unfoldable pub write_toggle : Toggle → Shared → Shared
unfolding record_mode_change
write_toggle t w = record w {
  manager = record (w.manager) { saved = some t.value };
  store = if t.changed then record_mode_change t.value w.store else w.store;
}

unfoldable pub nth_toggle : ℕ → List Toggle → Option Toggle
nth_toggle n [] = none
nth_toggle zero (t ∷ toggles) = some t
nth_toggle (suc n) (t ∷ toggles) = nth_toggle n toggles

unfoldable pub drop_toggle : ℕ → List Toggle → List Toggle
drop_toggle n [] = []
drop_toggle zero (t ∷ toggles) = toggles
drop_toggle (suc n) (t ∷ toggles) = t ∷ drop_toggle n toggles

unfoldable pub write_found : Option Toggle → ℕ → Shared → Shared
unfolding write_toggle drop_toggle
write_found none n w = w
write_found (some t) n w = record (write_toggle t w) { toggles = drop_toggle n w.toggles }

-- The call that is the `n`th of those between their halves goes on, whatever the order of their locks was.
unfoldable pub write_motion_only : ℕ → Shared → Shared
unfolding write_found nth_toggle
write_motion_only n w = write_found (nth_toggle n w.toggles) n w

-- `restore_motion_only` is called at the launch, before any run.
pub data Call : Type 0 where
  starts stops : Call
  flips : Bool → Call
  writes : ℕ → Call

unfoldable pub answer : Call → Shared → Shared
unfolding start_manager stop_manager flip_motion_only write_motion_only
answer starts w = record w { manager = start_manager w.manager }
answer stops w = record w { manager = stop_manager w.manager }
answer (flips value) w = flip_motion_only value w
answer (writes n) w = write_motion_only n w

unfoldable pub answer_all : List Call → Shared → Shared
unfolding answer
answer_all [] w = w
answer_all (call ∷ calls) w = answer_all calls (answer call w)
