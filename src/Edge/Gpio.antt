-- ===== src/Edge/Gpio.antt =====
-- `GpioOutputs` (edge/actuators/gpio.py). The backend is not part of the repository: what was written to
-- it is kept as a list of writes, the newest first, and each write says beforehand whether it
-- raises. What it raises is neither `KeyError` nor `GpioUnavailable`, which the tick tells from others.
use Prim.Native.String.{String}
use text.Mathlib.Text.{◌==◌ as str_eq}
use cat_automation.Prelude.{
  false, ℕ, Bool, true, Option, none, some, List, [], ◌∷◌, if◌then◌else◌, map,
}

-- A row of `outputs`, with the level that `_state` has for its name.
pub record Output : Type 0 where
  pub name : String
  pub pin : ℕ
  pub high : Bool

pub record Write : Type 0 where
  pub pin : ℕ
  pub high : Bool

pub record Gpio : Type 0 where
  pub outputs : List Output
  pub available : Bool
  pub writes : List Write

abbrev pub initial_high : Bool
initial_high = true

-- `_pin_by_name`: of rows with the same name the last one counts.
unfoldable pub pin_of : String → List Output → Option ℕ
pin_of name [] = none
pin_of name (o ∷ outputs) = elim (pin_of name outputs) [
  | some pin ↦ some pin
  | none ↦ if str_eq o.name name then some o.pin else none
]

unfoldable pub set_level : String → Bool → Output → Output
set_level name high o = if str_eq o.name name then record o { high = high } else o

-- How `set` ends: it returns, or it raises one of its exceptions or the backend's.
pub data Drive : Type 0 where
  driven unknown_name no_backend write_raised : Drive

unfoldable pub drive_pin : Bool → String → Bool → Gpio → Option ℕ → Gpio × Drive
unfolding set_level
drive_pin faulty name high g none = (g, unknown_name)
drive_pin faulty name high g (some pin) =
    if g.available
    then if faulty then (g, write_raised) else (
      record g {
        outputs = map (set_level name high) g.outputs;
        writes = record { pin = pin; high = high } ∷ g.writes;
      },
      driven,
    )
    else (g, no_backend)

-- `GpioOutputs.set`
unfoldable pub set : Bool → String → Bool → Gpio → Gpio × Drive
unfolding drive_pin pin_of
set faulty name high g = drive_pin faulty name high g (pin_of name g.outputs)

-- `GpioOutputs.__init__` with or without a backend, for these names and pins.
unfoldable pub new_gpio : Bool → List (String × ℕ) → Gpio
new_gpio available rows = record {
  outputs = map (λ row. record { name = row.0; pin = row.1; high = initial_high }) rows;
  available = available;
  writes = [];
}

-- `GpioOutputs.close`
unfoldable pub close : Gpio → Gpio
close g = record g { available = false }
