-- ===== src/Tests/Edge.antt =====
-- The night light and its outputs (edge/server/night_light.py, edge/actuators/gpio.py) on an evening of
-- the first day, with sunrise at 6 and sunset at 18 o'clock.
use cat_automation.Edge.Throttle.{log_times}
use cat_automation.Edge.NightLight.{error_log_interval, should_log}
use cat_automation.Prelude.{
  pos, negsuc, ◌*◌, ◌≡◌, ◌&&◌, not, refl, true, false, some, [], ◌∷◌, if◌then◌else◌,
}
use cat_automation.Edge.Gpio.{Gpio, new_gpio, pin_of}
use cat_automation.Edge.NightLight.{
  Config, Sun, minute, NightLight, new_night_light, should_be_on, tick, Status,
}
use cat_automation.Edge.Schedule.{desired, is_dark, is_news, tick_follows}

abbrev board : Gpio
board = new_gpio true (("channel1", 26) ∷ ("channel2", 21) ∷ ("channel3", 20) ∷ [])

abbrev config : Config
config = record {
  enabled = true;
  channel = "channel2";
  on_before_sunset_min = pos 30;
  off_after_sunrise_min = negsuc 9;
}

abbrev sun : Sun
sun = record { sunrise = 360 * minute; sunset = 1080 * minute }

-- The light comes on at half past five.
evening : desired config sun (1050 * minute) ≡ false
unfolding desired should_be_on
evening = refl

abbrev light : NightLight
light = record new_night_light { last_level = some true }

is_dark_early : is_dark config sun (1060 * minute) ≡ true
is_dark_early = refl

-- Twenty minutes before sunset, on a pin that was high since the start.
tick_follows_example :
    let t = tick (λ d. some sun) false 7 (1060 * minute) config light board in
    let level = not (is_dark config sun (1060 * minute)) in
    let news = is_news (some true) level in
    (t.gpio.writes ≡ (
      if news && not false then record { pin = 21; high = level } ∷ board.writes else board.writes))
    × (t.light.last_level ≡ (if news && false then some true else some level))
    × (t.raised ≡ (news && false))
tick_follows_example =
    tick_follows (λ d. some sun) false 7 (1060 * minute) 21 config light board sun refl
      (unfold new_gpio in refl) refl (unfold new_gpio pin_of in refl)

abbrev next_sun : Sun
next_sun = record { sunrise = 1800 * minute; sunset = 2520 * minute }

-- At ten o'clock the light is off, until half past five.
abbrev noon_status : Status
noon_status = record {
  on_now = false;
  low = false;
  sunrise = 360 * minute;
  sunset = 1080 * minute;
  next_change = some (1050 * minute);
}

-- Failures every two minutes are told of every six.
warnings :
    log_times error_log_interval 0 (minute ∷ 3 * minute ∷ 5 * minute ∷ 7 * minute ∷ [])
    ≡ minute ∷ 7 * minute ∷ []
unfolding log_times should_log
warnings = refl
