-- ===== src/Training/Runs.antt =====
-- Two run functions of `TrainingManager` (compute/learning/runner.py): what they make of the ends of the
-- passes that they call, which are arguments.
use Prim.Native.String.{String}
use cat_automation.Prelude.{
  ℕ, Bool, true, false, Option, none, some, List, [], ◌∷◌, ◌++◌, ◌==◌, not, filter, if◌then◌else◌,
}
use cat_automation.Training.Queue.{
  Summary, visit_summary, gallery_summary, RunEnd, returned, embed_cancelled, raised,
}

-- What a run over one visit meets: the exception of the detect pass, the stop event after it, whether a
-- model is active, and the end of the identify pass with its count.
pub record VisitRun : Type 0 where
  pub detect_error : Option String
  pub stopped : Bool
  pub has_model : Bool
  pub identified : RunEnd ℕ

unfoldable pub visit_end : RunEnd ℕ → ℕ → ℕ → RunEnd (Option Summary)
visit_end (returned n) start_id end_id = returned (some (visit_summary n true start_id end_id))
visit_end embed_cancelled start_id end_id = embed_cancelled
visit_end (raised error) start_id end_id = raised error

unfoldable pub after_visit_detect : Option String → VisitRun → ℕ → ℕ → RunEnd (Option Summary)
unfolding visit_end
after_visit_detect (some error) v start_id end_id = raised error
after_visit_detect none v start_id end_id =
    if v.stopped
    then returned none
    else if v.has_model
    then visit_end v.identified start_id end_id
    else returned (some (visit_summary 0 false start_id end_id))

-- `_run_visit_identify`
unfoldable pub run_visit_identify : VisitRun → ℕ → ℕ → RunEnd (Option Summary)
unfolding after_visit_detect
run_visit_identify v start_id end_id = after_visit_detect v.detect_error v start_id end_id

-- The directories under `models_root`, by the time in their names, and the directories that the rows of
-- model_versions name, the committed ones and those in the open transaction of the store's connection.
pub record Shelf : Type 0 where
  pub dirs : List ℕ
  pub rows : List ℕ
  pub uncommitted : List ℕ

-- `add_model_version` returns the id, or its INSERT raises, or its COMMIT raises, after which the row stays
-- in the open transaction: there is no rollback.
pub data Inserted : Type 0 where
  inserted : ℕ → Inserted
  insert_raised : String → Inserted
  commit_raised : String → Inserted

-- What a gallery build meets: the builder's end, with whether the labels were enough; the directories that
-- it left; whether `rmtree` can remove the directory; and how `add_model_version` ends.
pub record Build : Type 0 where
  pub built : RunEnd Bool
  pub dirs : List ℕ
  pub is_removable : Bool
  pub insert : Inserted

-- `shutil.rmtree(out_dir, ignore_errors=True)`, which leaves the directory where its removal fails.
unfoldable pub rmtree : Bool → ℕ → List ℕ → List ℕ
rmtree is_removable out_dir dirs =
    if is_removable then filter (λ dir. not (dir == out_dir)) dirs else dirs

-- A COMMIT takes the rows of the open transaction with it.
unfoldable pub insert_version : Inserted → ℕ → Build → Shelf → Shelf × RunEnd (Option Summary)
unfolding rmtree
insert_version (inserted version_id) out_dir b s = (
  record { dirs = b.dirs; rows = s.rows ++ (s.uncommitted ++ (out_dir ∷ [])); uncommitted = [] },
  returned (some (gallery_summary (some version_id))),
)
insert_version (insert_raised error) out_dir b s =
    (record s { dirs = rmtree b.is_removable out_dir b.dirs }, raised error)
insert_version (commit_raised error) out_dir b s = (
  record s {
    dirs = rmtree b.is_removable out_dir b.dirs;
    uncommitted = s.uncommitted ++ (out_dir ∷ []);
  },
  raised error,
)

unfoldable pub after_build : RunEnd Bool → ℕ → Build → Shelf → Shelf × RunEnd (Option Summary)
unfolding rmtree insert_version
after_build (returned true) out_dir b s = insert_version b.insert out_dir b s
after_build (returned false) out_dir b s = (
  record s { dirs = rmtree b.is_removable out_dir b.dirs },
  returned (some (gallery_summary none)),
)
after_build embed_cancelled out_dir b s = (record s { dirs = b.dirs }, embed_cancelled)
after_build (raised error) out_dir b s = (record s { dirs = b.dirs }, raised error)

-- `_run_gallery_build`
unfoldable pub run_gallery_build : ℕ → Build → Shelf → Shelf × RunEnd (Option Summary)
unfolding after_build
run_gallery_build out_dir b s = after_build b.built out_dir b s
