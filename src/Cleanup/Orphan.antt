-- ===== src/Cleanup/Orphan.antt =====
-- The sweep of media files without a row: `Store.delete_orphan_batch` (compute/collection/store.py) and
-- `CleanupManager._run_orphan` (compute/collection/cleanup.py). The walk gives the files that are there at
-- its start, and every name of a media file tells its receive time; sizes are left out. `can_remove` tells
-- the files that `os.remove` can remove while they are there, and no other thread changes the store between the batches. `cancel` sets the
-- stop event before the reading with the number `cancel_at`, and it stays set.
use cat_automation.Prelude.{
  ℕ, suc, Bool, Option, List, [], ◌∷◌, ◌++◌, ◌==◌, ◌&&◌, ◌||◌, not, leb, any, length, if◌then◌else◌,
}
use cat_automation.Store.Tables.{MediaPath, path_eq, Frame, Store}
use cat_automation.Store.Delete.{unlink}
use cat_automation.Cleanup.Nonmotion.{is_set}

abbrev pub orphan_batch : ℕ
orphan_batch = 200

-- The probe by the receive time, and the scan by the path that confirms a miss.
unfoldable pub is_referenced : MediaPath → List Frame → Bool
is_referenced rel frames =
    any (λ f. f.path.recv_ts == rel.recv_ts && path_eq f.path rel) frames
    || any (λ f. path_eq f.path rel) frames

abbrev pub has_path : MediaPath → List MediaPath → Bool
has_path rel paths = any (λ p. path_eq p rel) paths

-- `list(dict.fromkeys(rel_paths))`, after the paths `seen`.
unfoldable pub uniq_after : List MediaPath → List MediaPath → List MediaPath
uniq_after seen [] = []
uniq_after seen (rel ∷ rels) =
    let rest = uniq_after (rel ∷ seen) rels in if has_path rel seen then rest else rel ∷ rest

-- The store and the count of deleted files.
pub record Removal : Type 0 where
  pub store : Store
  pub deleted : ℕ

-- One round of the loop over the candidates.
unfoldable pub sweep_file : (MediaPath → Bool) → MediaPath → Removal → Removal
unfolding is_referenced unlink
sweep_file can_remove rel r =
    if is_referenced rel r.store.db.frames || not (can_remove rel) then r else record {
      store = record (r.store) { files = unlink rel r.store.files };
      deleted = if has_path rel r.store.files then suc r.deleted else r.deleted;
    }

unfoldable pub sweep_files : (MediaPath → Bool) → List MediaPath → Removal → Removal
unfolding sweep_file
sweep_files can_remove [] r = r
sweep_files can_remove (rel ∷ rels) r = sweep_files can_remove rels (sweep_file can_remove rel r)

unfoldable pub delete_orphan_batch : (MediaPath → Bool) → List MediaPath → Removal → Removal
unfolding uniq_after sweep_files
delete_orphan_batch can_remove rels r = sweep_files can_remove (uniq_after [] rels) r

-- The variables of `_run_orphan`; `readings` counts the readings of the stop event.
pub record OrphanRun : Type 0 where
  pub removal : Removal
  pub buf : List MediaPath
  pub scanned : ℕ
  pub readings : ℕ

-- The buffer with one more file, and the batch where it is full.
unfoldable pub take_file : (MediaPath → Bool) → MediaPath → OrphanRun → OrphanRun
unfolding delete_orphan_batch
take_file can_remove rel r =
    let buf = r.buf ++ (rel ∷ []) in
    let taken : OrphanRun = record r {
      buf = buf;
      scanned = suc r.scanned;
      readings = suc r.readings;
    } in
    if leb orphan_batch (length buf)
    then record taken { removal = delete_orphan_batch can_remove buf r.removal; buf = [] }
    else taken

-- The loop over the walk of the media directory.
unfoldable pub orphan_loop : (MediaPath → Bool) → Option ℕ → List MediaPath → OrphanRun → OrphanRun
unfolding take_file is_set
orphan_loop can_remove cancel_at [] r = r
orphan_loop can_remove cancel_at (rel ∷ rels) r =
    let rest = orphan_loop can_remove cancel_at rels (take_file can_remove rel r) in
    if is_set cancel_at r.readings then record r { readings = suc r.readings } else rest

-- The last batch, which an empty buffer or a cancel leaves out.
unfoldable pub flush : (MediaPath → Bool) → Option ℕ → OrphanRun → OrphanRun
unfolding delete_orphan_batch is_set
flush can_remove cancel_at r =
    if leb (length r.buf) 0
    then r
    else if is_set cancel_at r.readings
    then record r { readings = suc r.readings }
    else record r {
      readings = suc r.readings;
      removal = delete_orphan_batch can_remove r.buf r.removal;
    }

pub record OrphanSummary : Type 0 where
  pub deleted : ℕ
  pub scanned : ℕ
  pub canceled : Bool

-- `_run_orphan`
unfoldable pub run_orphan : (MediaPath → Bool) → Option ℕ → Store → Store × OrphanSummary
unfolding orphan_loop flush is_set
run_orphan can_remove cancel_at s =
    let begun : OrphanRun = record {
      removal = record { store = s; deleted = 0 };
      buf = [];
      scanned = 0;
      readings = 0;
    } in
    let r = flush can_remove cancel_at (orphan_loop can_remove cancel_at s.files begun) in
    (
      r.removal.store,
      record {
        deleted = r.removal.deleted;
        scanned = r.scanned;
        canceled = is_set cancel_at r.readings;
      },
    )
