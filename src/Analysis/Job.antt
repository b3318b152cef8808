-- ===== src/Analysis/Job.antt =====
-- `_Job` and `_job_category` of compute/analysis/runner.py. The resolved analyzer, `name` and `label`
-- of a job are left out: the queue hands them on unread. A MOG2 parameter stands for itself by a
-- number, since the queue only compares parameters.
use Prim.Native.String.{String}
use text.Mathlib.Text.{◌==◌ as str_eq, starts_with}
use cat_automation.Prelude.{
  bool_eq, option_eq, list_eq, ℕ, Bool, Option, List, ◌==◌, ◌&&◌, if◌then◌else◌,
}

pub data Category : Type 0 where
  mog2 lighting coverage : Category

unfoldable pub job_category : String → Category
job_category kind =
    if starts_with kind "mog2:" then mog2 else if str_eq kind "lighting" then lighting else coverage

pub record Job : Type 0 where
  pub kind : String
  pub reanalyze : Bool
  pub since_id : Option ℕ
  pub until_id : Option ℕ
  pub params : Option (List ℕ)
  pub motion_only : Bool
  pub job_id : ℕ
  pub category : Category
  pub since_ts : Option ℕ
  pub total : Option ℕ

-- `a.dedup_key() == b.dedup_key()`
unfoldable pub same_key : Job → Job → Bool
same_key a b =
    str_eq a.kind b.kind
    && option_eq (list_eq ◌==◌) a.params b.params
    && bool_eq a.reanalyze b.reanalyze
    && option_eq ◌==◌ a.since_id b.since_id
    && option_eq ◌==◌ a.until_id b.until_id
    && bool_eq a.motion_only b.motion_only
