-- ===== src/Edge/NightLight.antt =====
-- `NightLight` (edge/server/night_light.py). Instants are microseconds; a monotonic reading is a number
-- that never falls, 0 for "never". The source of sun times, `astral`, is a parameter: it gives sunrise
-- and sunset of a day, or none where it raises.
use Prim.Native.String.{String}
use cat_automation.Prelude.{
  ℤ, pos, negsuc, ℕ, ◌+◌, ◌-◌, ◌*◌, ◌/◌, Bool, true, false, Option, none, some, List, [], ◌∷◌, ◌==◌,
  ◌||◌, not, ltb, leb, min, filter, if◌then◌else◌,
}
use cat_automation.Edge.Gpio.{Gpio, Drive, driven, write_raised, set}

abbrev pub minute : ℕ
minute = 60000000

-- `instant + timedelta(minutes=offset)` and the difference, for instants that lie four hours or more
-- after the first one.
unfoldable pub plus_minutes : ℕ → ℤ → ℕ
plus_minutes t (pos n) = t + n * minute
plus_minutes t (negsuc n) = t - (n + 1) * minute

unfoldable pub minus_minutes : ℕ → ℤ → ℕ
minus_minutes t (pos n) = t - n * minute
minus_minutes t (negsuc n) = t + (n + 1) * minute

pub record Config : Type 0 where
  pub enabled : Bool
  pub channel : String
  pub on_before_sunset_min : ℤ
  pub off_after_sunrise_min : ℤ

pub record Sun : Type 0 where
  pub sunrise : ℕ
  pub sunset : ℕ

abbrev pub day : ℕ
day = 86400000000

abbrev pub error_log_interval : ℕ
error_log_interval = 300000000

pub record NightLight : Type 0 where
  pub last_level : Option Bool
  pub last_sun_error_mono : ℕ
  pub last_set_error_mono : ℕ
  pub last_tick_error_mono : ℕ

unfoldable pub new_night_light : NightLight
new_night_light = record {
  last_level = none;
  last_sun_error_mono = 0;
  last_set_error_mono = 0;
  last_tick_error_mono = 0;
}

-- `should_be_on`
unfoldable pub should_be_on : Sun → ℤ → ℤ → ℕ → Bool
unfolding plus_minutes minus_minutes
should_be_on sun on_before_sunset_min off_after_sunrise_min now =
    let on_end = plus_minutes sun.sunrise off_after_sunrise_min in
    let on_start = minus_minutes sun.sunset on_before_sunset_min in
    ltb now on_end || leb on_start now

-- `_should_log` on one of the fields: whether to log, and the field afterwards.
unfoldable pub should_log : ℕ → ℕ → ℕ → Bool × ℕ
should_log mono interval last =
    if last == 0 || leb interval (mono - last) then (true, mono) else (false, last)

-- What a tick leaves: the objects, whether it logged a warning, and whether it raised.
pub record Ticked : Type 0 where
  pub light : NightLight
  pub gpio : Gpio
  pub logged : Bool
  pub raised : Bool

-- The end of `tick` after `gpio.set`.
unfoldable pub after_set : ℕ → Bool → NightLight → Gpio → Drive → Ticked
unfolding should_log
after_set mono level n g driven = record {
  light = record n { last_level = some level; last_set_error_mono = 0 };
  gpio = g;
  logged = false;
  raised = false;
}
after_set mono level n g write_raised = record {
  light = n;
  gpio = g;
  logged = false;
  raised = true;
}
after_set mono level n g _ =
    let (logged, last) = should_log mono error_log_interval n.last_set_error_mono in
    record {
      light = record n { last_set_error_mono = last };
      gpio = g;
      logged = logged;
      raised = false;
    }

-- `self._last_level is None or desired_level != self._last_level`
unfoldable pub differs : Option Bool → Bool → Bool
differs none level = true
differs (some true) level = not level
differs (some false) level = level

unfoldable pub drive : Bool → ℕ → String → Bool → NightLight → Gpio → Ticked
unfolding after_set differs
drive faulty mono channel level n g =
    let (g', result) = set faulty channel level g in
    if differs n.last_level level
    then after_set mono level n g' result
    else record { light = n; gpio = g; logged = false; raised = false }

-- The part of `tick` from the sun times on.
unfoldable pub follow : Bool → ℕ → ℕ → Config → Option Sun → NightLight → Gpio → Ticked
unfolding should_log should_be_on drive
follow faulty mono now cfg none n g =
    let (logged, last) = should_log mono error_log_interval n.last_sun_error_mono in
    record {
      light = record n { last_sun_error_mono = last };
      gpio = g;
      logged = logged;
      raised = false;
    }
follow faulty mono now cfg (some sun) n g =
    let on = should_be_on sun cfg.on_before_sunset_min cfg.off_after_sunrise_min now in
    drive faulty mono cfg.channel (not on) (record n { last_sun_error_mono = 0 }) g

module _ (sun_provider : ℕ → Option Sun) where
  -- `tick`
  unfoldable pub tick : Bool → ℕ → ℕ → Config → NightLight → Gpio → Ticked
  unfolding follow
  tick faulty mono now cfg n g =
      if (if cfg.enabled then g.available else false)
      then follow faulty mono now cfg (sun_provider (now / day)) n g
      else record {
        light = record n { last_level = none };
        gpio = g;
        logged = false;
        raised = false;
      }

  -- `_tick_guarded`
  unfoldable pub tick_guarded : Bool → ℕ → ℕ → Config → NightLight → Gpio → Ticked
  unfolding should_log
  tick_guarded faulty mono now cfg n g =
      let t = tick faulty mono now cfg n g in
      let (logged, last) = should_log mono error_log_interval t.light.last_tick_error_mono in
      if t.raised
      then record t {
        light = record (t.light) { last_tick_error_mono = last };
        logged = logged;
        raised = false;
      }
      else t

-- The part of `status` that the page shows.
pub record Status : Type 0 where
  pub on_now : Bool
  pub low : Bool
  pub sunrise : ℕ
  pub sunset : ℕ
  pub next_change : Option ℕ

unfoldable pub transitions : Config → Sun → Sun → List ℕ
unfolding plus_minutes minus_minutes
transitions cfg today tomorrow =
    let morning = plus_minutes today.sunrise cfg.off_after_sunrise_min in
    let evening = minus_minutes today.sunset cfg.on_before_sunset_min in
    let next_morning = plus_minutes tomorrow.sunrise cfg.off_after_sunrise_min in
    let next_evening = minus_minutes tomorrow.sunset cfg.on_before_sunset_min in
    morning ∷ evening ∷ next_morning ∷ next_evening ∷ []

unfoldable pub min_of : List ℕ → Option ℕ
min_of [] = none
min_of (t ∷ ts) = elim (min_of ts) [ none ↦ some t | some m ↦ some (min t m) ]

unfoldable pub status_of : Config → Option Sun → Option Sun → ℕ → Option Status
unfolding transitions min_of should_be_on
status_of cfg (some today) (some tomorrow) now =
    let on = should_be_on today cfg.on_before_sunset_min cfg.off_after_sunrise_min now in
    some (record {
      on_now = on;
      low = on;
      sunrise = today.sunrise;
      sunset = today.sunset;
      next_change = min_of (filter (λ t. ltb now t) (transitions cfg today tomorrow));
    })
status_of cfg _ _ now = none

-- `status`
unfoldable pub status : (ℕ → Option Sun) → Config → ℕ → Option Status
unfolding status_of
status sun_provider cfg now =
    if cfg.enabled
    then status_of cfg (sun_provider (now / day)) (sun_provider ((now + day) / day)) now
    else none
