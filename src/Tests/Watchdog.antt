-- ===== src/Tests/Watchdog.antt =====
-- The watchdog (edge/server/watchdog.py) with a slot that stops at the instant 100.
use cat_automation.Prelude.{
  ℕ, ◌+◌, ◌-◌, ◌≡◌, ◌≤◌, ◌<◌, refl, inl, inr, true, none, some, List, [], ◌∷◌, arith,
}
use cat_automation.Edge.Watchdog.{Watchdog, Poll, wedge, no_first_frame, check, watch}
use cat_automation.Edge.Stalls.{watch-wedge, watch-live}

abbrev dog : Watchdog
dog = record { watchdog_s = 20; boot_grace_s = 60; heartbeat_s = 30; start_mono = 90 }

abbrev stuck_at : ℕ → Poll
stuck_at now = record { now = now; is_running = true; snap = record { frame_id = 5; mono = 100 } }

abbrev dark_at : ℕ → Poll
dark_at now = record { now = now; is_running = true; snap = record { frame_id = 0; mono = 0 } }

no_camera : check dog (dark_at 151) ≡ some no_first_frame
unfolding check
no_camera = refl

abbrev polls : List Poll
polls = stuck_at 110 ∷ stuck_at 119 ∷ stuck_at 128 ∷ []

watch-wedge_example :
    (at : ℕ) × ((watch dog 90 polls).report
      ≡ some (record { reason = wedge; since = some (at - 100); at = at }))
    × (100 + 20 < at)
    × (at ≤ 100 + 20 + 9)
watch-wedge_example =
    watch-wedge dog 9 5 100 105 90 polls (omega arith) (omega arith) (omega arith)
      ((refl, refl, refl), ((refl, refl, refl), ((refl, refl, refl), tt))) refl

watch-live_example : (watch dog 90 (dark_at 95 ∷ stuck_at 110 ∷ stuck_at 119 ∷ [])).report ≡ none
watch-live_example = watch-live dog 90 (dark_at 95 ∷ stuck_at 110 ∷ stuck_at 119 ∷ []) (
  inr (inr (refl, omega arith)),
  (inr (inl (omega arith, omega arith)), (inr (inl (omega arith, omega arith)), tt)),
)
