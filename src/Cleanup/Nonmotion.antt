-- ===== src/Cleanup/Nonmotion.antt =====
-- `CleanupManager._run_nonmotion` (compute/collection/cleanup.py). `others` tells what the other threads make
-- of the store between two holds of its lock, by the number of the reading before. `cancel` sets the stop event before the reading with the number `cancel_at`,
-- and the event stays set for the rest of the job; `faults` says which batches raise. The progress
-- counters are left to Slot.
use cat_automation.Prelude.{
  ℕ, zero, suc, ◌+◌, Bool, true, false, Option, none, some, List, leb, ltb, ◌==◌, length,
  if◌then◌else◌, filter, not, ◌&&◌,
}
use cat_automation.Store.Tables.{Frame, Store}
use cat_automation.Store.Purge.{up_to, Batch, purge_nonmotion_batch, record_purge_span}

abbrev pub nonmotion_batch : ℕ
nonmotion_batch = 500

-- `stop_event.is_set()` at its reading with this number.
unfoldable pub is_set : Option ℕ → ℕ → Bool
is_set none reading = false
is_set (some cancel_at) reading = leb cancel_at reading

-- The count that `purge_nonmotion_estimate` gives as the job's total.
unfoldable pub estimate_count : Option ℕ → List Frame → ℕ
unfolding up_to
estimate_count until_id frames = length (filter (λ f. not f.motion && up_to until_id f.id) frames)

-- The variables of the loop; `readings` counts the readings of the stop event, and `raised` says
-- whether a batch has raised.
pub record Run : Type 0 where
  pub store : Store
  pub deleted : ℕ
  pub last_max : Option ℕ
  pub readings : ℕ
  pub raised : Bool

-- One reading of the event.
unfoldable pub read_event : Run → Run
read_event r = record r { readings = suc r.readings }

-- What the loop does with the result of a batch, and whether it goes on.
unfoldable pub after_batch : Store → Option Batch → Run → Run × Bool
after_batch t none r = (record r { store = t; raised = true }, false)
after_batch t (some b) r = if b.deleted == 0 then (record r { store = t }, false) else (
  record r { store = t; deleted = r.deleted + b.deleted; last_max = b.max_deleted_id },
  true,
)

-- The `while` loop with batches of this size, on fuel, which is enough where the other threads add no frame
-- that the window selects: a round that goes on has deleted a row.
unfoldable pub purge_loop :
    ℕ → ℕ → (ℕ → Bool) → (ℕ → Store → Store) → Option ℕ → Option ℕ → Run → Run
unfolding is_set read_event after_batch
purge_loop zero batch_size faults others cancel_at until_id r = r
purge_loop (suc fuel) batch_size faults others cancel_at until_id r =
    let found : Run = record r { store = others r.readings r.store } in
    let (t, b) = purge_nonmotion_batch (faults r.readings) until_id batch_size found.store in
    let (r', goes_on) = after_batch t b (read_event found) in
    let rest = purge_loop fuel batch_size faults others cancel_at until_id r' in
    if is_set cancel_at r.readings then read_event r else if goes_on then rest else r'

pub record Summary : Type 0 where
  pub deleted : ℕ
  pub span_recorded : Bool
  pub canceled : Bool

unfoldable pub or_last : Option ℕ → Option ℕ → Option ℕ
or_last none last_max = last_max
or_last (some until_id) last_max = some until_id

-- `effective_end`
unfoldable pub effective_end : Bool → Option ℕ → Option ℕ → Option ℕ
unfolding or_last
effective_end canceled until_id last_max = if canceled then last_max else or_last until_id last_max

-- Where the deleted rows' span goes to the table, and whether it does.
unfoldable pub record_span : Option ℕ → Option ℕ → Store → Store × Bool
record_span (some since_id) (some end) s = (record_purge_span since_id end s, true)
record_span _ _ s = (s, false)

-- The part of the method after the loop.
unfoldable pub conclude : Option ℕ → Option ℕ → Option ℕ → Run → Store × Summary
unfolding is_set effective_end record_span
conclude cancel_at until_id since_id r =
    let canceled = is_set cancel_at r.readings in
    let (t, span_recorded) =
      if ltb 0 r.deleted
      then record_span since_id (effective_end canceled until_id r.last_max) r.store
      else (r.store, false) in
    (t, record { deleted = r.deleted; span_recorded = span_recorded; canceled = canceled })

unfoldable pub start_run : Store → Run
start_run s = record { store = s; deleted = 0; last_max = none; readings = 0; raised = false }

-- The method: `none` stands for the exception of a batch.
unfoldable pub run_nonmotion :
    (ℕ → Bool)
    → (ℕ → Store → Store)
    → Option ℕ
    → Option ℕ
    → Option ℕ
    → Store
    → Store × Option Summary
unfolding start_run conclude
run_nonmotion faults others cancel_at until_id since_id s =
    let r =
      purge_loop (suc (length s.db.frames)) nonmotion_batch faults others cancel_at until_id
        (start_run s) in
    let (t, summary) =
      conclude cancel_at until_id since_id (record r { store = others r.readings r.store }) in
    if r.raised then (r.store, none) else (t, some summary)
