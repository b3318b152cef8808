-- ===== src/Live/Saved.antt =====
-- The watermark in memory and the saved one of the live-identification worker
-- (compute/learning/live_identify.py).
use cat_automation.Prelude.{ℕ, ◌≡◌, refl, true, false, some, [], ◌∷◌, All, ==_refl}
use cat_automation.Live.Worker.{
  Worker, settings, new_worker, Call, resets, reset_watermark, answer, answer_all,
  advance_watermark,
}
use cat_automation.Live.Tick.{Moment}

-- The worker was enabled once, and the saved watermark is the one in memory.
abbrev pub IsSaved : Worker → Type 0
IsSaved w = (w.seed_horizon ≡ false) × (w.saved_watermark ≡ some w.watermark)

abbrev pub IsNoReset : Call → Type 0
IsNoReset (resets value) = true ≡ false
IsNoReset _ = true ≡ true

-- The watermark that is about to be saved.
IsUnsaved : ℕ → Worker → Type 0
IsUnsaved value w = (w.seed_horizon ≡ false) × (w.watermark ≡ value)

-- No reset lands between the two halves of a save.
pub record SavesAlone (m : Moment) : Type 0 where
  pub clamping : All IsNoReset m.clamping
  pub saving : (i : ℕ) → All IsNoReset (m.turn i).saving

-- A reset that lands between the two halves of a save: the watermark in memory is the reset's, and the
-- saved one is the tick's, so a restart begins where the tick was and not at the reset.
pub advance_watermark_overwrites :
    (end_id epoch value : ℕ) (w : Worker)
    → w.seed_horizon ≡ false
    → w.epoch ≡ epoch
    → let (w', advanced) = advance_watermark (resets value ∷ []) end_id epoch w in
      (w'.watermark ≡ value) × ((new_worker (settings w')).watermark ≡ end_id)
unfolding advance_watermark answer_all answer reset_watermark new_worker settings
advance_watermark_overwrites end_id epoch value w s e = rw (s, e, ==_refl epoch) (refl, refl)
