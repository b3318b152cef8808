-- ===== src/Store/Halted.antt =====
-- `Store._evict_locked` (compute/collection/store.py) up to a write of its own that raises.
use cat_automation.Prelude.{
  ℕ, zero, suc, ◌≡◌, refl, ◌∙◌, inl, inr, Bool, Option, none, some, List, [], ◌∷◌, not, length,
  Bool-cases, if◌then◌else◌,
}
use cat_automation.Store.Tables.{Frame, Store, stage_keeps_all_frames}
use cat_automation.Store.Delete.{unlink, delete_frame}
use cat_automation.Store.Evict.{victims, over_cap, has_rows}

-- The store, and how many rows can still be deleted before a DELETE raises: none once it has.
pub record Halting : Type 0 where
  pub store : Store
  pub left : Option ℕ

-- The `for` loop. The file of a row goes before its DELETE.
unfoldable pub halt_rows : ℕ → List Frame → Store → Halting
unfolding over_cap
halt_rows n [] s = record { store = s; left = some n }
halt_rows zero (row ∷ rows) s = record {
  store = record s { files = unlink row.path s.files };
  left = none;
}
halt_rows (suc n) (row ∷ rows) s =
    let s' = delete_frame row s in
    let rest = halt_rows n rows s' in
    if over_cap s' then rest else record { store = s'; left = some n }

-- The `while` loop, on the fuel of `evict_loop`.
unfoldable pub halt_loop : ℕ → Bool → Option ℕ → Store → Store
unfolding halt_rows victims has_rows over_cap
halt_loop zero prefer left s = s
halt_loop (suc fuel) prefer none s = s
halt_loop (suc fuel) prefer (some n) s =
    let h = halt_rows n (victims prefer s.db.frames).rows s in
    let rest = halt_loop fuel prefer h.left h.store in
    if over_cap s
    then if has_rows (victims prefer s.db.frames).rows
      then rest
      else record s { total_bytes = 0; count = 0; motion_count = 0 }
    else s

-- What `_evict_locked` leaves where a DELETE raises after `n` rows, or, where it deletes no more than `n`
-- rows, the write of the frontier.
unfoldable pub evict_until : ℕ → Store → Store
unfolding halt_loop
evict_until n s =
    halt_loop (suc (length s.db.frames)) (not (stage_keeps_all_frames s.stage)) (some n) s

-- The configuration is the same.
abbrev SameConfig : Store → Store → Type 0
SameConfig s t = (t.max_bytes ≡ s.max_bytes) × (t.stage ≡ s.stage)

halt_rows-SameConfig :
    (n : ℕ) (rows : List Frame) (s : Store) → SameConfig s (halt_rows n rows s).store
unfolding halt_rows delete_frame
halt_rows-SameConfig n [] s = (refl, refl)
halt_rows-SameConfig zero (row ∷ rows) s = (refl, refl)
halt_rows-SameConfig (suc n) (row ∷ rows) s =
    let s' = delete_frame row s in
    elim (Bool-cases (over_cap s')) [
      | inl over ↦ rw over (halt_rows-SameConfig n rows s')
      | inr fits ↦ rw fits (refl, refl)
    ]

halt_loop-SameConfig :
    (fuel : ℕ) (prefer : Bool) (left : Option ℕ) (s : Store)
    → SameConfig s (halt_loop fuel prefer left s)
unfolding halt_loop
halt_loop-SameConfig zero prefer left s = (refl, refl)
halt_loop-SameConfig (suc fuel) prefer none s = (refl, refl)
halt_loop-SameConfig (suc fuel) prefer (some n) s =
    let rows = (victims prefer s.db.frames).rows in
    let h = halt_rows n rows s in
    let (max_bytes, stage) = halt_rows-SameConfig n rows s in
    let (max_bytes', stage') = halt_loop-SameConfig fuel prefer h.left h.store in
    elim (Bool-cases (over_cap s)) [
      | inl over ↦ elim (Bool-cases (has_rows rows)) [
        | inl more ↦ rw (over, more) (max_bytes' ∙ max_bytes, stage' ∙ stage)
        | inr empty ↦ rw (over, empty) (refl, refl)
      ]
      | inr fits ↦ rw fits (refl, refl)
    ]

pub evict_until-SameConfig :
    (n : ℕ) (s : Store)
    → ((evict_until n s).max_bytes ≡ s.max_bytes) × ((evict_until n s).stage ≡ s.stage)
unfolding evict_until
evict_until-SameConfig n s =
    halt_loop-SameConfig (suc (length s.db.frames)) (not (stage_keeps_all_frames s.stage)) (some n)
      s
