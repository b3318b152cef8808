-- ===== src/Edge/Schedule.antt =====
-- When `NightLight` (edge/server/night_light.py) writes to its channel, and what it tells of its next
-- change.
use Prim.Native.String.{String}
use cat_automation.Prelude.{
  refl, ℤ, pos, negsuc, ◌+◌, ◌*◌, ◌&&◌, ◌||◌, leb, ℕ, ◌/◌, ◌≡◌, ◌≤◌, ◌<◌, subst, inl, inr, ◌⊎◌,
  Bool, true, false, Option, none, some, List, [], ◌∷◌, not, ltb, min, filter, if◌then◌else◌, All,
  not-ltb→le, Bool-cases, Option-cases, arith,
}
use cat_automation.Edge.Gpio.{Gpio, pin_of, drive_pin, set}
use cat_automation.Edge.NightLight.{
  Config, Sun, minute, day, NightLight, should_be_on, after_set, differs, drive, tick, transitions,
  min_of, Ticked, follow, Status, status_of, plus_minutes, minus_minutes,
}

-- The level that the schedule asks for: low is on.
unfoldable pub desired : Config → Sun → ℕ → Bool
desired cfg sun now = not (should_be_on sun cfg.on_before_sunset_min cfg.off_after_sunrise_min now)

-- Where the schedule is enabled, the outputs are there and the sun times are known: a tick whose
-- schedule asks for the level that was last commanded leaves the outputs alone, whoever has set them
-- since, and logs nothing.
tick_holds :
    (sun_provider : ℕ → Option Sun) (faulty : Bool) (mono now : ℕ) (cfg : Config) (n : NightLight)
    (g : Gpio) (sun : Sun)
    → cfg.enabled ≡ true
    → g.available ≡ true
    → sun_provider (now / day) ≡ some sun
    → n.last_level ≡ some (desired cfg sun now)
    → let t = tick sun_provider faulty mono now cfg n g in
      (t.gpio ≡ g) × (t.light.last_level ≡ n.last_level) × (t.logged ≡ false) × (t.raised ≡ false)
unfolding tick desired drive differs
tick_holds sun_provider faulty mono now cfg n g sun e a p l = ground (arith, e, a, p, l)

-- The minutes by which an offset puts an instant off, and those by which it brings it forward.
abbrev pub later : ℤ → ℕ
later (pos n) = n * minute
later (negsuc n) = 0

abbrev pub earlier : ℤ → ℕ
earlier (pos n) = 0
earlier (negsuc n) = (n + 1) * minute

-- It is before sunrise and its offset, or not before sunset less its offset.
abbrev pub is_dark : Config → Sun → ℕ → Bool
is_dark cfg sun now =
    ltb (now + earlier cfg.off_after_sunrise_min) (sun.sunrise + later cfg.off_after_sunrise_min)
    || leb (sun.sunset + earlier cfg.on_before_sunset_min) (now + later cfg.on_before_sunset_min)

before_offset :
    (now t : ℕ) (offset : ℤ)
    → ltb now (plus_minutes t offset) ≡ ltb (now + earlier offset) (t + later offset)
unfolding plus_minutes
before_offset now t (pos n) = ground arith
before_offset now t (negsuc n) = ground arith

from_offset :
    (now t : ℕ) (offset : ℤ)
    → leb (minus_minutes t offset) now ≡ leb (t + earlier offset) (now + later offset)
unfolding minus_minutes
from_offset now t (pos n) = ground arith
from_offset now t (negsuc n) = ground arith

desired-eq-not-is_dark :
    (cfg : Config) (sun : Sun) (now : ℕ) → desired cfg sun now ≡ not (is_dark cfg sun now)
unfolding desired should_be_on
desired-eq-not-is_dark cfg sun now = cc (
  before_offset now sun.sunrise cfg.off_after_sunrise_min,
  from_offset now sun.sunset cfg.on_before_sunset_min,
)

-- The level is not the last one that was commanded.
abbrev pub is_news : Option Bool → Bool → Bool
is_news none level = true
is_news (some true) level = not level
is_news (some false) level = level

differs-eq-is_news : (last : Option Bool) (level : Bool) → differs last level ≡ is_news last level
unfolding differs
differs-eq-is_news none level = refl
differs-eq-is_news (some true) level = refl
differs-eq-is_news (some false) level = refl

no_news : (last : Option Bool) (level : Bool) → is_news last level ≡ false → last ≡ some level
no_news none level h = cc h
no_news (some true) true h = refl
no_news (some true) false h = cc h
no_news (some false) true h = cc h
no_news (some false) false h = refl

-- What the tick's end leaves: the writes, the last commanded level, and whether it raised.
abbrev Follows : Bool → ℕ → Bool → NightLight → Gpio → Ticked → Type 0
Follows faulty pin level n g t =
    let news = is_news n.last_level level in
    (t.gpio.writes
      ≡ (if news && not faulty then record { pin = pin; high = level } ∷ g.writes else g.writes))
    × (t.light.last_level ≡ (if news && faulty then n.last_level else some level))
    × (t.raised ≡ (news && faulty))

drive-Follows :
    (faulty : Bool) (mono pin : ℕ) (channel : String) (level : Bool) (n : NightLight) (g : Gpio)
    → g.available ≡ true
    → pin_of channel g.outputs ≡ some pin
    → Follows faulty pin level n g (drive faulty mono channel level n g)
unfolding drive after_set set drive_pin
drive-Follows faulty mono pin channel level n g a p =
    elim (Bool-cases (is_news n.last_level level)) [
      | inl news ↦ elim (Bool-cases faulty) [
        | inl raises ↦
            simp (differs-eq-is_news n.last_level level, news, p, a, raises) (refl, refl, refl)
        | inr works ↦
            simp (differs-eq-is_news n.last_level level, news, p, a, works) (refl, refl, refl)
      ]
      | inr old ↦
          simp (differs-eq-is_news n.last_level level, old)
            (refl, no_news n.last_level level old, refl)
    ]

-- Where the schedule is enabled, the outputs are there, the sun times are known and the channel has a pin: a
-- tick asks for the low level from `on_before_sunset_min` minutes before sunset on and until
-- `off_after_sunrise_min` minutes after sunrise, and for the high level in between. Where that is not the
-- level that was last commanded, it writes it to the channel's pin, once; it counts as commanded only if
-- the write landed, and the tick raises only if the write did. Where it is, nothing is written.
pub tick_follows :
    (sun_provider : ℕ → Option Sun) (faulty : Bool) (mono now pin : ℕ) (cfg : Config)
    (n : NightLight) (g : Gpio) (sun : Sun)
    → cfg.enabled ≡ true
    → g.available ≡ true
    → sun_provider (now / day) ≡ some sun
    → pin_of cfg.channel g.outputs ≡ some pin
    → let t = tick sun_provider faulty mono now cfg n g in
      let level = not (is_dark cfg sun now) in
      let news = is_news n.last_level level in
      (t.gpio.writes
        ≡ (if news && not faulty then record { pin = pin; high = level } ∷ g.writes else g.writes))
      × (t.light.last_level ≡ (if news && faulty then n.last_level else some level))
      × (t.raised ≡ (news && faulty))
unfolding tick follow desired
tick_follows sun_provider faulty mono now pin cfg n g sun e a s p =
    let n' : NightLight = record n { last_sun_error_mono = 0 } in
    simp (e, a, s)
      (subst
        (λ level.
          Follows faulty pin level n g (drive faulty mono cfg.channel (desired cfg sun now) n' g))
        (desired-eq-not-is_dark cfg sun now)
        (drive-Follows faulty mono pin cfg.channel (desired cfg sun now) n' g a p))

-- Whether `t` is before the change, where there is one.
abbrev pub Before : ℕ → Option ℕ → Type 0
Before t none = Unit
Before t (some m) = t < m

min_of-Before :
    (t x : ℕ) (ts : List ℕ) → Before t (min_of (x ∷ ts)) → (t < x) × Before t (min_of ts)
unfolding min_of
min_of-Before t x ts h = elim (Option-cases (min_of ts)) [
  | inl nothing ↦ (rw nothing at h, rw nothing tt)
  | inr (m, e) ↦
      let low : t < min x m = rw e at h in (omega (arith, low), rw e (omega (arith, low)))
]

-- No transition after `now` lies at or before `t`.
steady :
    (now t : ℕ) (ts : List ℕ)
    → Before t (min_of (filter (λ x. ltb now x) ts))
    → All (λ x. x ≤ now ⊎ t < x) ts
steady now t [] h = tt
steady now t (x ∷ ts) h = elim (Bool-cases (ltb now x)) [
  | inl future ↦
      let (first, rest) = min_of-Before t x (filter (λ x. ltb now x) ts) (
        subst
          (λ b.
            Before t
              (min_of (if b then x ∷ filter (λ x. ltb now x) ts else filter (λ x. ltb now x) ts)))
          future h) in
      (inr first, steady now t ts rest)
  | inr past ↦ (
    inl (not-ltb→le now x past),
    steady now t ts (
        subst
          (λ b.
            Before t
              (min_of (if b then x ∷ filter (λ x. ltb now x) ts else filter (λ x. ltb now x) ts)))
          past h),
  )
]

desired_steady :
    (cfg : Config) (sun : Sun) (now t : ℕ)
    → now ≤ t
    → let on_end = plus_minutes sun.sunrise cfg.off_after_sunrise_min in
      let on_start = minus_minutes sun.sunset cfg.on_before_sunset_min in
      on_end ≤ now ⊎ t < on_end
      → on_start ≤ now ⊎ t < on_start
      → desired cfg sun t ≡ desired cfg sun now
unfolding desired should_be_on
desired_steady cfg sun now t later morning evening = ground (arith, morning, evening)

-- From now to just before the change that the status tells of, and for good where it tells of none, the
-- schedules of today and of tomorrow ask for the same level as they do now.
status_steady :
    (cfg : Config) (today tomorrow : Sun) (now t : ℕ) (s : Status)
    → status_of cfg (some today) (some tomorrow) now ≡ some s
    → now ≤ t
    → Before t s.next_change
    → (desired cfg today t ≡ desired cfg today now)
      × (desired cfg tomorrow t ≡ desired cfg tomorrow now)
unfolding status_of transitions
status_steady cfg today tomorrow now t s e later h =
    let change : s.next_change ≡ min_of (filter (λ x. ltb now x) (transitions cfg today tomorrow)) =
      ground (arith, e) in
    let all = steady now t (transitions cfg today tomorrow) (subst (λ o. Before t o) change h) in
    (
      desired_steady cfg today now t later all.0 all.1.0,
      desired_steady cfg tomorrow now t later all.1.1.0 all.1.1.1.0,
    )
