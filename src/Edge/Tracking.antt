-- ===== src/Edge/Tracking.antt =====
-- The levels that `GpioOutputs` (edge/actuators/gpio.py) reports, and those of its pins.
use Prim.Native.String.{String}
use text.Mathlib.Text.{◌==◌ as str_eq}
use cat_automation.Prelude.{
  ℕ, ◌≡◌, inl, inr, Bool, Option, none, some, List, [], ◌∷◌, ◌==◌, if◌then◌else◌, map, All,
  Bool-cases, arith,
}
use cat_automation.Edge.Gpio.{Output, Write, Gpio, initial_high, pin_of, set_level, drive_pin, set}

-- The level that the last write to the pin drove it to, and the boot level before any.
unfoldable pub pin_level : ℕ → List Write → Bool
pin_level pin [] = initial_high
pin_level pin (w ∷ writes) = if w.pin == pin then w.high else pin_level pin writes

-- The rows with the name `name` are those with the pin `pin`.
abbrev pub Wired : String → ℕ → List Output → Type 0
Wired name pin outputs = All (λ o. str_eq o.name name ≡ (pin == o.pin)) outputs

abbrev pub WiredAt : String → Option ℕ → List Output → Type 0
WiredAt name none outputs = Unit
WiredAt name (some pin) outputs = Wired name pin outputs

-- What the driver reports is what the pins were driven to.
abbrev pub Tracks : Gpio → Type 0
Tracks g = All (λ o. o.high ≡ pin_level o.pin g.writes) g.outputs

Tracks-map :
    (name : String) (pin : ℕ) (high : Bool) (writes : List Write) (outputs : List Output)
    → Wired name pin outputs
    → All (λ o. o.high ≡ pin_level o.pin writes) outputs
    → All
        (λ o. o.high ≡ pin_level o.pin (record { pin = pin; high = high } ∷ writes))
        (map (set_level name high) outputs)
unfolding set_level pin_level
Tracks-map name pin high writes [] w t = tt
Tracks-map name pin high writes (o ∷ outputs) w t =
    (ground (arith, w.0, t.0), Tracks-map name pin high writes outputs w.1 t.1)

drive_pin-Tracks :
    (faulty : Bool) (name : String) (high : Bool) (g : Gpio) (pin : Option ℕ)
    → WiredAt name pin g.outputs
    → Tracks g
    → Tracks (drive_pin faulty name high g pin).0
unfolding drive_pin
drive_pin-Tracks faulty name high g none w t = t
drive_pin-Tracks faulty name high g (some pin) w t = elim (Bool-cases g.available) [
  | inr absent ↦ rw absent t
  | inl present ↦ elim (Bool-cases faulty) [
    | inl raises ↦ rw (present, raises) t
    | inr lands ↦ rw (present, lands) (Tracks-map name pin high g.writes g.outputs w t)
  ]
]

-- Where the rows with the name are those with its pin, and each row's level is the one that its pin was
-- last driven to: that is so again after `set`, however it ends.
set-Tracks :
    (faulty : Bool) (name : String) (high : Bool) (g : Gpio)
    → WiredAt name (pin_of name g.outputs) g.outputs
    → Tracks g
    → Tracks (set faulty name high g).0
unfolding set
set-Tracks faulty name high g w t = drive_pin-Tracks faulty name high g (pin_of name g.outputs) w t
