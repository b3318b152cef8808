-- ===== src/Edge/Throttle.antt =====
-- The warnings of `NightLight` (edge/server/night_light.py) over a streak of failing ticks.
use cat_automation.Prelude.{
  ℕ, ◌+◌, ◌-◌, ◌≡◌, ◌≤◌, ◌<◌, inl, inr, ◌⊎◌, List, [], ◌∷◌, ◌==◌, ◌||◌, leb, if◌then◌else◌,
  Bool-cases, arith,
}
use cat_automation.Edge.NightLight.{should_log}

-- The monotonic readings at which a path with failures at `monos` logs, from its field `last` on.
unfoldable pub log_times : ℕ → ℕ → List ℕ → List ℕ
log_times interval last [] = []
log_times interval last (mono ∷ monos) =
    let (logged, last') = should_log mono interval last in
    let rest = log_times interval last' monos in if logged then mono ∷ rest else rest

-- Each warning comes at least the interval after the one before, at first one at `last`, where 0 stands
-- for none.
abbrev pub SpacedFrom : ℕ → ℕ → List ℕ → Type 0
SpacedFrom interval last [] = Unit
SpacedFrom interval last (t ∷ ts) = (last ≡ 0 ⊎ last + interval ≤ t) × SpacedFrom interval t ts

-- For a positive interval, over a streak of failures of one path: each warning comes at least the interval
-- after the one before, unless that one came at 0, the mark for none.
log_times-SpacedFrom :
    (interval last : ℕ) (monos : List ℕ)
    → 0 < interval
    → SpacedFrom interval last (log_times interval last monos)
unfolding log_times should_log
log_times-SpacedFrom interval last [] p = tt
log_times-SpacedFrom interval last (mono ∷ monos) p =
    elim (Bool-cases (last == 0 || leb interval (mono - last))) [
      | inl due ↦ rw due (ground (arith, due, p), log_times-SpacedFrom interval mono monos p)
      | inr quiet ↦ rw quiet (log_times-SpacedFrom interval last monos p)
    ]
