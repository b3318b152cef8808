-- ===== src/Edge/Stalls.antt =====
-- When `Watchdog` (edge/server/watchdog.py) reports a stall, and when it does not.
use cat_automation.Prelude.{
  ℕ, ◌+◌, ◌-◌, ◌≡◌, ◌≤◌, ◌<◌, refl, ap, ◌∙◌, inl, inr, ◌⊎◌, Bool, true, false, none, some, List, [],
  ◌∷◌, ltb, any, All, if◌then◌else◌, Bool-cases, arith,
}
use cat_automation.Edge.Watchdog.{
  wedge, Watchdog, FrameSnapshot, Poll, classify, Watched, report_of, heartbeat_due, with_heartbeat,
  judge, watch,
}

-- Each poll comes after the one before, by at most `pace`.
abbrev pub PacedFrom : ℕ → ℕ → List Poll → Type 0
PacedFrom pace t [] = Unit
PacedFrom pace t (p ∷ polls) = (t ≤ p.now) × (p.now ≤ t + pace) × PacedFrom pace p.now polls

-- The grabber runs, and its slot is stuck at a frame of the instant `mono`.
abbrev pub IsStuck : ℕ → ℕ → Poll → Type 0
IsStuck frame_id mono p =
    (p.is_running ≡ true) × (p.snap.frame_id ≡ frame_id) × (p.snap.mono ≡ mono)

-- The grabber is off, or its frame is recent, or it has no frame and the grace is not over.
abbrev pub IsLive : Watchdog → Poll → Type 0
IsLive w p =
    (p.is_running ≡ false)
    ⊎ (0 < p.snap.frame_id) × (p.now ≤ p.snap.mono + w.watchdog_s)
    ⊎ (p.snap.frame_id ≡ 0) × (p.now ≤ w.start_mono + w.boot_grace_s)

classify-stuck :
    (w : Watchdog) (snap : FrameSnapshot) (now : ℕ)
    → 0 < snap.frame_id
    → (snap.mono + w.watchdog_s < now) × (classify w snap now ≡ some wedge)
      ⊎ (now ≤ snap.mono + w.watchdog_s) × (classify w snap now ≡ none)
unfolding classify
classify-stuck w snap now h = ground (arith, h)

classify-live :
    (w : Watchdog) (p : Poll) → IsLive w p → p.is_running ≡ true → classify w p.snap p.now ≡ none
unfolding classify
classify-live w p l runs = ground (arith, l, runs)

report-judge :
    (p : Poll) (due : Bool) (rest : Watched) → (judge none p due rest).report ≡ rest.report
unfolding judge with_heartbeat
report-judge p true rest = refl
report-judge p false rest = refl

report-judge_wedge :
    (p : Poll) (due : Bool) (rest : Watched)
    → 0 < p.snap.frame_id
    → (judge (some wedge) p due rest).report
      ≡ some (record { reason = wedge; since = some (p.now - p.snap.mono); at = p.now })
unfolding judge report_of
report-judge_wedge p due rest h = ground (arith, h)

-- The polls come at most `pace` apart, and the grabber is stuck at a frame from `mono` on that was not yet
-- too old: as soon as one poll comes more than `watchdog_s` after `mono`, the loop has ended with a
-- wedge, reported later than `watchdog_s` after `mono` and at most `pace` later than that.
pub watch-wedge :
    (w : Watchdog) (pace frame_id mono t last_heartbeat : ℕ) (polls : List Poll)
    → 0 < frame_id
    → t ≤ mono + w.watchdog_s
    → PacedFrom pace t polls
    → All (IsStuck frame_id mono) polls
    → any (λ p. ltb (mono + w.watchdog_s) p.now) polls ≡ true
    → (at : ℕ) × ((watch w last_heartbeat polls).report
        ≡ some (record { reason = wedge; since = some (at - mono); at = at }))
      × (mono + w.watchdog_s < at)
      × (at ≤ mono + w.watchdog_s + pace)
unfolding watch report_of
watch-wedge w pace frame_id mono t last [] f b q s e = cc
watch-wedge w pace frame_id mono t last (p ∷ polls) f b q s e =
    let ((runs, same_id, same_mono), others) = s in
    let due = heartbeat_due w last p.now in
    let rest = watch w (if due then p.now else last) polls in
    let has_frame : 0 < p.snap.frame_id = omega (arith, f, same_id) in
    elim (classify-stuck w p.snap p.now has_frame) [
      | inl (late, c) ↦ (
        p.now,
        simp (runs, c)
            (report-judge_wedge p due rest has_frame
              ∙ ap (λ m. some (record { reason = wedge; since = some (p.now - m); at = p.now }))
                  same_mono),
        omega (arith, late, same_mono),
        omega (arith, q.0, q.1, b),
      )
      | inr (early, c) ↦
          let (at, reported, after, soon) =
            watch-wedge w pace frame_id mono p.now (if due then p.now else last) polls f
              (omega (arith, early, same_mono)) q.2 others (ground (arith, early, same_mono, e)) in
          (at, simp (runs, c) (report-judge p due rest ∙ reported), after, soon)
    ]

-- While every poll finds the grabber live, nothing is reported.
pub watch-live :
    (w : Watchdog) (last_heartbeat : ℕ) (polls : List Poll)
    → All (IsLive w) polls
    → (watch w last_heartbeat polls).report ≡ none
unfolding watch
watch-live w last [] l = refl
watch-live w last (p ∷ polls) l = elim (Bool-cases p.is_running) [
  | inl runs ↦
      let due = heartbeat_due w last p.now in
      let next = if due then p.now else last in
      simp (runs, classify-live w p l.0 runs)
        (report-judge p due (watch w next polls) ∙ watch-live w next polls l.1)
  | inr off ↦ simp off (watch-live w last polls l.1)
]
