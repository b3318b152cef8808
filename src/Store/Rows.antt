-- ===== src/Store/Rows.antt =====
-- The rows of a table whose ids ascend: looking one up, and what deleting it leaves.
use cat_automation.Prelude.{
  ℕ, zero, suc, ◌+◌, ◌≤◌, ◌<◌, ◌≡◌, ◌≢◌, refl, sym, inl, inr, Bool, Option, none, some, List, [],
  ◌∷◌, ◌==◌, length, if◌then◌else◌, All, take, filter, insert_by, sort_by, All-filter, All-take,
  All-insert_by, All-sort_by, Bool-cases, arith,
}
use cat_automation.Store.Tables.{Frame, sum_bytes, sum_motion}
use cat_automation.Store.Delete.{remove_id}

abbrev pub AscendFrom : ℕ → List Frame → Type 0
AscendFrom k [] = Unit
AscendFrom k (f ∷ frames) = (k < f.id) × AscendFrom f.id frames

-- The ids ascend strictly.
abbrev pub Ascend : List Frame → Type 0
Ascend [] = Unit
Ascend (f ∷ frames) = AscendFrom f.id frames

pub AscendFrom-le :
    (j k : ℕ) (frames : List Frame) → j ≤ k → AscendFrom k frames → AscendFrom j frames
AscendFrom-le j k [] h a = tt
AscendFrom-le j k (f ∷ frames) h a = (omega arith, a.1)

pub AscendFrom-Ascend : (k : ℕ) (frames : List Frame) → AscendFrom k frames → Ascend frames
AscendFrom-Ascend k [] a = tt
AscendFrom-Ascend k (f ∷ frames) a = a.1

unfoldable pub find : ℕ → List Frame → Option Frame
find k [] = none
find k (f ∷ frames) = if f.id == k then some f else find k frames

pub remove_id-absent :
    (j k : ℕ) (frames : List Frame) → j ≤ k → AscendFrom k frames → remove_id j frames ≡ frames
unfolding remove_id
remove_id-absent j k [] h a = refl
remove_id-absent j k (f ∷ frames) h a =
    let later : j ≤ f.id = omega arith in
    ground (arith, a.0, remove_id-absent j f.id frames later a.1)

pub remove_id-head :
    (f : Frame) (frames : List Frame) → Ascend (f ∷ frames) → remove_id f.id (f ∷ frames) ≡ frames
unfolding remove_id
remove_id-head f frames a = ground (arith, remove_id-absent f.id f.id frames)

pub remove_id-AscendFrom :
    (j k : ℕ) (frames : List Frame) → AscendFrom k frames → AscendFrom k (remove_id j frames)
unfolding remove_id
remove_id-AscendFrom j k [] a = tt
remove_id-AscendFrom j k (f ∷ frames) a = elim (Bool-cases (f.id == j)) [
  | inl same ↦
      rw same (remove_id-AscendFrom j k frames (AscendFrom-le k f.id frames (omega arith) a.1))
  | inr other ↦ rw other (a.0, remove_id-AscendFrom j f.id frames a.1)
]

pub remove_id-Ascend : (j : ℕ) (frames : List Frame) → Ascend frames → Ascend (remove_id j frames)
unfolding remove_id
remove_id-Ascend j [] a = tt
remove_id-Ascend j (f ∷ frames) a = elim (Bool-cases (f.id == j)) [
  | inl same ↦
      rw same (AscendFrom-Ascend f.id (remove_id j frames) (remove_id-AscendFrom j f.id frames a))
  | inr other ↦ rw other (remove_id-AscendFrom j f.id frames a)
]

-- One row leaves, with its bytes and its motion.
pub record Removed (frames : List Frame) (row : Frame) (left : List Frame) : Type 0 where
  pub bytes : sum_bytes left + row.n_bytes ≡ sum_bytes frames
  pub rows : suc (length left) ≡ length frames
  pub motion : sum_motion left + (if row.motion then 1 else 0) ≡ sum_motion frames

pub remove_id-Removed :
    (row : Frame) (frames : List Frame)
    → Ascend frames
    → find row.id frames ≡ some row
    → Removed frames row (remove_id row.id frames)
unfolding find remove_id sum_bytes sum_motion
remove_id-Removed row [] a h = cc
remove_id-Removed row (f ∷ frames) a h = elim (Bool-cases (f.id == row.id)) [
  | inl same ↦ ground (arith, remove_id-absent row.id f.id frames)
  | inr other ↦ ground (arith, remove_id-Removed row frames (AscendFrom-Ascend f.id frames a))
]

pub find-remove_id :
    (j k : ℕ) (frames : List Frame)
    → find j (remove_id k frames) ≡ (if j == k then none else find j frames)
unfolding find remove_id
find-remove_id j k [] = ground arith
find-remove_id j k (f ∷ frames) = ground (arith, find-remove_id j k frames)

find_absent : (j k : ℕ) (frames : List Frame) → j ≤ k → AscendFrom k frames → find j frames ≡ none
unfolding find
find_absent j k [] h a = refl
find_absent j k (f ∷ frames) h a =
    let later : j ≤ f.id = omega arith in ground (arith, a.0, find_absent j f.id frames later a.1)

-- The rows are rows of the table.
abbrev pub Found : List Frame → List Frame → Type 0
Found frames rows = All (λ r. find r.id frames ≡ some r) rows

abbrev pub Fresh : ℕ → List Frame → Type 0
Fresh k rows = All (λ r. r.id ≢ k) rows

abbrev pub Distinct : List Frame → Type 0
Distinct [] = Unit
Distinct (r ∷ rows) = Fresh r.id rows × Distinct rows

Found-cons :
    (f : Frame) (frames rows : List Frame)
    → Fresh f.id rows
    → Found frames rows
    → Found (f ∷ frames) rows
unfolding find
Found-cons f frames [] n h = tt
Found-cons f frames (r ∷ rows) n h = (ground (arith, n.0, h.0), Found-cons f frames rows n.1 h.1)

pub AscendFrom-Fresh :
    (j k : ℕ) (frames : List Frame) → j ≤ k → AscendFrom k frames → Fresh j frames
AscendFrom-Fresh j k [] h a = tt
AscendFrom-Fresh j k (f ∷ frames) h a =
    ((λ e. absurd (omega (arith, e))), AscendFrom-Fresh j f.id frames (omega arith) a.1)

pub Ascend-Distinct : (frames : List Frame) → Ascend frames → Distinct frames
Ascend-Distinct [] a = tt
Ascend-Distinct (f ∷ frames) a = (
  AscendFrom-Fresh f.id f.id frames (omega arith) a,
  Ascend-Distinct frames (AscendFrom-Ascend f.id frames a),
)

pub Ascend-Found : (frames : List Frame) → Ascend frames → Found frames frames
unfolding find
Ascend-Found [] a = tt
Ascend-Found (f ∷ frames) a = (
  ground arith,
  Found-cons f frames frames (AscendFrom-Fresh f.id f.id frames (omega arith) a)
      (Ascend-Found frames (AscendFrom-Ascend f.id frames a)),
)

pub Found-remove_id :
    (k : ℕ) (frames rows : List Frame)
    → Fresh k rows
    → Found frames rows
    → Found (remove_id k frames) rows
Found-remove_id k frames [] n h = tt
Found-remove_id k frames (r ∷ rows) n h =
    (ground (arith, find-remove_id r.id k frames, n.0, h.0), Found-remove_id k frames rows n.1 h.1)

pub Distinct-filter :
    (p : Frame → Bool) (rows : List Frame) → Distinct rows → Distinct (filter p rows)
Distinct-filter p [] d = tt
Distinct-filter p (r ∷ rows) d = elim (Bool-cases (p r)) [
  | inl e ↦ rw e (All-filter (λ f. f.id ≢ r.id) p rows d.0, Distinct-filter p rows d.1)
  | inr e ↦ rw e (Distinct-filter p rows d.1)
]

pub Distinct-take : (n : ℕ) (rows : List Frame) → Distinct rows → Distinct (take n rows)
Distinct-take zero rows d = tt
Distinct-take (suc n) [] d = tt
Distinct-take (suc n) (r ∷ rows) d =
    (All-take (λ f. f.id ≢ r.id) n rows d.0, Distinct-take n rows d.1)

Distinct-insert_by :
    (le : Frame → Frame → Bool) (a : Frame) (rows : List Frame)
    → Fresh a.id rows
    → Distinct rows
    → Distinct (insert_by le a rows)
Distinct-insert_by le a [] n d = (tt, tt)
Distinct-insert_by le a (r ∷ rows) n d = elim (Bool-cases (le a r)) [
  | inl e ↦ rw e (n, d)
  | inr e ↦ rw e (
    All-insert_by (λ f. f.id ≢ r.id) le a rows (λ h. n.0 (sym h)) d.0,
    Distinct-insert_by le a rows n.1 d.1,
  )
]

pub Distinct-sort_by :
    (le : Frame → Frame → Bool) (rows : List Frame) → Distinct rows → Distinct (sort_by le rows)
Distinct-sort_by le [] d = tt
Distinct-sort_by le (r ∷ rows) d =
    Distinct-insert_by le r (sort_by le rows) (All-sort_by (λ f. f.id ≢ r.id) le rows d.0)
      (Distinct-sort_by le rows d.1)
