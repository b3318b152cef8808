-- ===== src/Training/Excluded.antt =====
-- The exclusion of cats from a training job (compute/learning/runner.py) does not depend on the order or the
-- repetition of the ids, so neither does the test for a double click.
use Prim.Native.String.{String}
use cat_automation.Prelude.{
  ℕ, ◌≡◌, ◌<◌, ◌≤◌, refl, sym, ap, subst, ◌∙◌, inl, inr, Bool, true, false, Option, none, some,
  List, [], ◌∷◌, ◌==◌, ◌||◌, ltb, any, Bool-cases, arith,
}
use cat_automation.Training.Job.{
  insert_id, sorted_ids, norm_excluded, gallery_build_job, same_training_refl, gallery_build,
  norm_grades, norm_cap,
}
use cat_automation.Training.Queue.{Trainer, submit, is_current_job}

abbrev pub member : ℕ → List ℕ → Bool
member n ids = any (λ id. id == n) ids

-- Every id is above `low`, and they ascend.
abbrev AscendsFrom : ℕ → List ℕ → Type 0
AscendsFrom low [] = Unit
AscendsFrom low (id ∷ ids) = (low < id) × AscendsFrom id ids

abbrev Ascends : List ℕ → Type 0
Ascends [] = Unit
Ascends (id ∷ ids) = AscendsFrom id ids

insert_id-AscendsFrom :
    (low id : ℕ) (ids : List ℕ)
    → low < id
    → AscendsFrom low ids
    → AscendsFrom low (insert_id id ids)
unfolding insert_id
insert_id-AscendsFrom low id [] h a = (h, tt)
insert_id-AscendsFrom low id (b ∷ ids) h a = ground (arith, h, a, insert_id-AscendsFrom b id ids)

insert_id-Ascends : (id : ℕ) (ids : List ℕ) → Ascends ids → Ascends (insert_id id ids)
unfolding insert_id
insert_id-Ascends id [] a = tt
insert_id-Ascends id (b ∷ ids) a = ground (arith, a, insert_id-AscendsFrom b id ids)

sorted_ids-Ascends : (ids : List ℕ) → Ascends (sorted_ids ids)
unfolding sorted_ids
sorted_ids-Ascends [] = tt
sorted_ids-Ascends (id ∷ ids) = insert_id-Ascends id (sorted_ids ids) (sorted_ids-Ascends ids)

member-insert_id :
    (n id : ℕ) (ids : List ℕ) → member n (insert_id id ids) ≡ ((id == n) || member n ids)
unfolding insert_id
member-insert_id n id [] = refl
member-insert_id n id (b ∷ ids) = ground (arith, member-insert_id n id ids)

member-sorted_ids : (n : ℕ) (ids : List ℕ) → member n (sorted_ids ids) ≡ member n ids
unfolding sorted_ids
member-sorted_ids n [] = refl
member-sorted_ids n (id ∷ ids) =
    member-insert_id n id (sorted_ids ids) ∙ ap (λ b. (id == n) || b) (member-sorted_ids n ids)

-- Nothing at or below `low` is in a list that ascends from it.
member-low : (n low : ℕ) (ids : List ℕ) → AscendsFrom low ids → n ≤ low → member n ids ≡ false
member-low n low [] a h = refl
member-low n low (id ∷ ids) a h = ground (arith, a, h, member-low n id ids)

-- The first ids of two ascending lists with the same members.
same_head :
    (x y : ℕ) (xs ys : List ℕ)
    → AscendsFrom x xs
    → AscendsFrom y ys
    → member x (x ∷ xs) ≡ member x (y ∷ ys)
    → member y (x ∷ xs) ≡ member y (y ∷ ys)
    → x ≡ y
same_head x y xs ys a b hx hy = elim (Bool-cases (ltb x y)) [
  | inl less ↦ ground (arith, less, hx, member-low x y ys b)
  | inr most ↦ ground (arith, most, hy, member-low y x xs a)
]

-- Ascending lists with the same members are the same.
AscendsFrom-unique :
    (low : ℕ) (xs ys : List ℕ)
    → AscendsFrom low xs
    → AscendsFrom low ys
    → ((n : ℕ) → low < n → member n xs ≡ member n ys)
    → xs ≡ ys
AscendsFrom-unique low [] [] a b h = refl
AscendsFrom-unique low [] (y ∷ ys) a b h = ground (arith, h y b.0)
AscendsFrom-unique low (x ∷ xs) [] a b h = ground (arith, h x a.0)
AscendsFrom-unique low (x ∷ xs) (y ∷ ys) a b h =
    let same = same_head x y xs ys a.1 b.1 (h x a.0) (h y b.0) in
    let rest =
      AscendsFrom-unique x xs ys a.1 (subst (λ z. AscendsFrom z ys) (sym same) b.1)
        (λ n above. ground (arith, above, a.0, same, h n)) in
    cc (same, rest)

Ascends-unique :
    (xs ys : List ℕ) → Ascends xs → Ascends ys → ((n : ℕ) → member n xs ≡ member n ys) → xs ≡ ys
Ascends-unique [] [] a b h = refl
Ascends-unique [] (y ∷ ys) a b h = ground (arith, h y)
Ascends-unique (x ∷ xs) [] a b h = ground (arith, h x)
Ascends-unique (x ∷ xs) (y ∷ ys) a b h =
    let same = same_head x y xs ys a b (h x) (h y) in
    let rest =
      AscendsFrom-unique x xs ys a (subst (λ z. AscendsFrom z ys) (sym same) b)
        (λ n above. ground (arith, above, same, h n)) in
    cc (same, rest)

sorted_ids_unique :
    (xs ys : List ℕ) → ((n : ℕ) → member n xs ≡ member n ys) → sorted_ids xs ≡ sorted_ids ys
sorted_ids_unique xs ys h =
    Ascends-unique (sorted_ids xs) (sorted_ids ys) (sorted_ids-Ascends xs) (sorted_ids-Ascends ys)
      λ n. member-sorted_ids n xs ∙ h n ∙ sym (member-sorted_ids n ys)

pub norm_excluded_unique :
    (xs ys : List ℕ) → ((n : ℕ) → member n xs ≡ member n ys) → norm_excluded xs ≡ norm_excluded ys
unfolding norm_excluded
norm_excluded_unique [] [] h = refl
norm_excluded_unique [] (y ∷ ys) h = ground (arith, h y)
norm_excluded_unique (x ∷ xs) [] h = ground (arith, h x)
norm_excluded_unique (x ∷ xs) (y ∷ ys) h =
    ap (λ ids. some ids) (sorted_ids_unique (x ∷ xs) (y ∷ ys) h)

-- A gallery build is running; one with the same grades, cap and geometry is asked for, whose excluded ids
-- are the same ones in any order and however often each stands there: it counts as a double click, and
-- nothing changes.
pub submit-gallery_build_job :
    (qualities : List String) (max_per_cat : Option ℕ) (geometry : Option String) (xs ys : List ℕ)
    (m : Trainer)
    → m.running ≡ true
    → m.current_job ≡ some (gallery_build_job qualities max_per_cat xs geometry)
    → ((n : ℕ) → member n xs ≡ member n ys)
    → submit (gallery_build_job qualities max_per_cat ys geometry) m
      ≡ (m, record { position = 0; deduped = true; thread = none })
unfolding submit is_current_job gallery_build_job
submit-gallery_build_job qualities max_per_cat geometry xs ys m r c h =
    let job = gallery_build_job qualities max_per_cat ys geometry in
    let current : m.current_job ≡ some job =
      c
      ∙ ap (λ ids. some (gallery_build (norm_grades qualities) (norm_cap max_per_cat) ids geometry))
          (norm_excluded_unique xs ys h) in
    rw (r, current, same_training_refl job) refl
