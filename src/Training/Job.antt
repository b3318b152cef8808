-- ===== src/Training/Job.antt =====
-- `_Job` and the parameters that the enqueue methods of `TrainingManager` make
-- (compute/learning/runner.py). The canonical form of a geometry is a parameter of the methods: it comes
-- as an argument. The label, which the logs print, is left out.
use Prim.Native.String.{String}
use text.Mathlib.Text.{◌==◌ as str_eq}
use text.Mathlib.TextPositions.{eq_refl}
use cat_automation.Prelude.{
  ℕ, ◌≡◌, refl, Bool, true, false, Option, none, some, List, [], ◌∷◌, ◌==◌, ◌&&◌, ltb,
  if◌then◌else◌, option_eq, list_eq, option_eq_refl, list_eq_refl, ==_refl,
}

abbrev pub Grades : Type 0
Grades = Option (List String)

-- `kind` and `params`. An empty parameter is none.
pub data TrainingJob : Type 0 where
  feasibility : Grades → Option (List ℕ) → Option String → TrainingJob
  gallery_build : Grades → Option ℕ → Option (List ℕ) → Option String → TrainingJob
  identify : Option ℕ → Option ℕ → TrainingJob
  visit_identify : ℕ → ℕ → TrainingJob

abbrev pub grades_eq : Grades → Grades → Bool
grades_eq = option_eq (list_eq str_eq)

abbrev pub ids_eq : Option (List ℕ) → Option (List ℕ) → Bool
ids_eq = option_eq (list_eq ◌==◌)

-- `a.dedup_key() == b.dedup_key()`
unfoldable pub same_training : TrainingJob → TrainingJob → Bool
same_training (feasibility q e g) (feasibility q' e' g') =
    grades_eq q q' && ids_eq e e' && option_eq str_eq g g'
same_training (gallery_build q c e g) (gallery_build q' c' e' g') =
    grades_eq q q' && option_eq ◌==◌ c c' && ids_eq e e' && option_eq str_eq g g'
same_training (identify s u) (identify s' u') = option_eq ◌==◌ s s' && option_eq ◌==◌ u u'
same_training (visit_identify s e) (visit_identify s' e') = s == s' && e == e'
same_training _ _ = false

pub same_training_refl : (job : TrainingJob) → same_training job job ≡ true
unfolding same_training
same_training_refl (feasibility q e g) =
    rw
      (
        option_eq_refl (list_eq str_eq) (list_eq_refl str_eq eq_refl) q,
        option_eq_refl (list_eq ◌==◌) (list_eq_refl ◌==◌ ==_refl) e,
        option_eq_refl str_eq eq_refl g,
      )
      refl
same_training_refl (gallery_build q c e g) =
    rw
      (
        option_eq_refl (list_eq str_eq) (list_eq_refl str_eq eq_refl) q,
        option_eq_refl ◌==◌ ==_refl c,
        option_eq_refl (list_eq ◌==◌) (list_eq_refl ◌==◌ ==_refl) e,
        option_eq_refl str_eq eq_refl g,
      )
      refl
same_training_refl (identify s u) =
    rw (option_eq_refl ◌==◌ ==_refl s, option_eq_refl ◌==◌ ==_refl u) refl
same_training_refl (visit_identify s e) = rw (==_refl s, ==_refl e) refl

-- `id` into a strictly ascending list.
unfoldable pub insert_id : ℕ → List ℕ → List ℕ
insert_id id [] = id ∷ []
insert_id id (a ∷ ids) =
    let rest = insert_id id ids in
    if ltb id a then id ∷ a ∷ ids else if id == a then a ∷ ids else a ∷ rest

-- `sorted({int(c) for c in ids})`
unfoldable pub sorted_ids : List ℕ → List ℕ
unfolding insert_id
sorted_ids [] = []
sorted_ids (id ∷ ids) = insert_id id (sorted_ids ids)

-- `_norm_excluded`; an absent list is the empty one.
unfoldable pub norm_excluded : List ℕ → Option (List ℕ)
unfolding sorted_ids
norm_excluded [] = none
norm_excluded (id ∷ ids) = some (sorted_ids (id ∷ ids))

-- `tuple(qualities) if qualities else None`
unfoldable pub norm_grades : List String → Grades
norm_grades [] = none
norm_grades (q ∷ qualities) = some (q ∷ qualities)

-- `int(max_per_cat) if max_per_cat else None`
unfoldable pub norm_cap : Option ℕ → Option ℕ
norm_cap none = none
norm_cap (some cap) = if cap == 0 then none else some cap

-- The jobs that `enqueue_feasibility`, `enqueue_gallery_build`, `enqueue_identify` and
-- `enqueue_visit_identify` hand to the queue.
unfoldable pub feasibility_job : List String → List ℕ → Option String → TrainingJob
unfolding norm_grades norm_excluded
feasibility_job qualities exclude_cat_ids geometry =
    feasibility (norm_grades qualities) (norm_excluded exclude_cat_ids) geometry

unfoldable pub gallery_build_job : List String → Option ℕ → List ℕ → Option String → TrainingJob
unfolding norm_grades norm_cap norm_excluded
gallery_build_job qualities max_per_cat exclude_cat_ids geometry =
    gallery_build (norm_grades qualities) (norm_cap max_per_cat) (norm_excluded exclude_cat_ids)
      geometry

unfoldable pub identify_job : Option ℕ → Option ℕ → TrainingJob
identify_job since_id until_id = identify since_id until_id

unfoldable pub visit_identify_job : ℕ → ℕ → TrainingJob
visit_identify_job start_id end_id = visit_identify start_id end_id
