-- ===== src/Edge/Watchdog.antt =====
-- `Watchdog` (edge/server/watchdog.py). Instants of the monotonic clock are natural numbers. A poll is what
-- one round of the loop reads: the clock, whether the grabber runs, and its slot.
use cat_automation.Prelude.{
  ℕ, ◌-◌, Bool, true, false, Option, none, some, List, [], ◌∷◌, ltb, if◌then◌else◌,
}

pub data Stall : Type 0 where
  wedge no_first_frame : Stall

-- `start_mono` is the instant of `start`.
pub record Watchdog : Type 0 where
  pub watchdog_s : ℕ
  pub boot_grace_s : ℕ
  pub heartbeat_s : ℕ
  pub start_mono : ℕ

-- The fields of `FrameSnapshot` that the watchdog decides by.
pub record FrameSnapshot : Type 0 where
  pub frame_id : ℕ
  pub mono : ℕ

pub record Poll : Type 0 where
  pub now : ℕ
  pub is_running : Bool
  pub snap : FrameSnapshot

-- `_classify`
unfoldable pub classify : Watchdog → FrameSnapshot → ℕ → Option Stall
classify w snap now =
    if ltb 0 snap.frame_id
    then (if ltb w.watchdog_s (now - snap.mono) then some wedge else none)
    else if ltb w.boot_grace_s (now - w.start_mono)
    then some no_first_frame
    else none

unfoldable pub check : Watchdog → Poll → Option Stall
unfolding classify
check w p = if p.is_running then classify w p.snap p.now else none

-- What `on_stall` is called with, and when.
pub record Report : Type 0 where
  pub reason : Stall
  pub since : Option ℕ
  pub at : ℕ

-- The stall that the loop ended with, if it did, and the instants of the log's heartbeats.
pub record Watched : Type 0 where
  pub report : Option Report
  pub heartbeats : List ℕ

unfoldable pub report_of : Stall → Poll → Report
report_of reason p = record {
  reason = reason;
  since = if ltb 0 p.snap.frame_id then some (p.now - p.snap.mono) else none;
  at = p.now;
}

unfoldable pub heartbeat_due : Watchdog → ℕ → ℕ → Bool
heartbeat_due w last_heartbeat now =
    if ltb (now - last_heartbeat) w.heartbeat_s then false else true

unfoldable pub with_heartbeat : Bool → ℕ → Watched → Watched
with_heartbeat due now rest =
    if due then record rest { heartbeats = now ∷ rest.heartbeats } else rest

-- The end of a round that found the grabber running.
unfoldable pub judge : Option Stall → Poll → Bool → Watched → Watched
unfolding report_of with_heartbeat
judge (some reason) p due rest = record { report = some (report_of reason p); heartbeats = [] }
judge none p due rest = with_heartbeat due p.now rest

-- `_run` over the polls of its rounds, with `_last_heartbeat_mono`.
unfoldable pub watch : Watchdog → ℕ → List Poll → Watched
unfolding classify heartbeat_due judge
watch w last_heartbeat [] = record { report = none; heartbeats = [] }
watch w last_heartbeat (p ∷ polls) =
    let due = if p.is_running then heartbeat_due w last_heartbeat p.now else false in
    let rest = watch w (if due then p.now else last_heartbeat) polls in
    if p.is_running then judge (classify w p.snap p.now) p due rest else rest
