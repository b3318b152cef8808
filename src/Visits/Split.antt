-- ===== src/Visits/Split.antt =====
-- `Store._gap_split` (compute/collection/store.py): a sequence of frames is cut where two
-- neighbours lie more than a gap apart.
use cat_automation.Prelude.{
  ℕ, ◌-◌, Bool, false, Option, none, some, List, [], ◌∷◌, ◌++◌, ltb, if◌then◌else◌,
}

-- `prev_ts is not None and ts - prev_ts > gap_ms`. Where the source's difference is negative the
-- truncated one is 0, and neither exceeds a gap.
unfoldable pub starts_run : ℕ → Option ℕ → ℕ → Bool
starts_run gap_ms none ts = false
starts_run gap_ms (some prev_ts) ts = ltb gap_ms (ts - prev_ts)

-- `if run: runs.append(run)`
unfoldable pub push_run {ℓ} : {A : Type ℓ} → List (List A) → List A → List (List A)
push_run runs [] = runs
push_run runs (x ∷ run) = runs ++ ((x ∷ run) ∷ [])

module _ {ℓ} {A : Type ℓ} (gap_ms : ℕ) (ts_of : A → ℕ) where
  -- The `for` loop, over `runs`, `run` and `prev_ts`.
  unfoldable pub split_loop : List (List A) → List A → Option ℕ → List A → List (List A)
  unfolding starts_run push_run
  split_loop runs run prev_ts [] = push_run runs run
  split_loop runs run prev_ts (item ∷ items) =
      let new = starts_run gap_ms prev_ts (ts_of item) in
      split_loop (if new then runs ++ run ∷ [] else runs)
        (if new then item ∷ [] else run ++ item ∷ []) (some (ts_of item)) items

  unfoldable pub gap_split : List A → List (List A)
  unfolding split_loop
  gap_split items = split_loop [] [] none items
