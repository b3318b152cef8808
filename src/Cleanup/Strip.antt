-- ===== src/Cleanup/Strip.antt =====
-- What `delete_rows` leaves when it deletes the first of the rows that pass a test: the loop of
-- `Store.purge_nonmotion_batch` (compute/collection/store.py).
use cat_automation.Prelude.{
  ℕ, ◌≡◌, refl, ap, subst, ◌∙◌, inl, inr, Bool, true, false, some, List, [], ◌∷◌, ◌++◌, ◌==◌, not,
  All, All-filter, filter, Bool-cases, arith,
}
use cat_automation.Store.Tables.{Frame, Store}
use cat_automation.Store.Delete.{remove_id, delete_frame}
use cat_automation.Store.Rows.{
  remove_id-head, Found, AscendFrom, Ascend, AscendFrom-le, AscendFrom-Ascend, find,
  remove_id-absent, Ascend-Found,
}
use cat_automation.Store.Counted.{IsCounted, delete_frame-IsCounted}
use cat_automation.Store.Untouched.{Untouched}
use cat_automation.Store.Purge.{delete_rows}

AscendFrom-filter :
    (p : Frame → Bool) (k : ℕ) (frames : List Frame)
    → AscendFrom k frames
    → AscendFrom k (filter p frames)
AscendFrom-filter p k [] a = tt
AscendFrom-filter p k (f ∷ frames) a = elim (Bool-cases (p f)) [
  | inl e ↦ rw e (a.0, AscendFrom-filter p f.id frames a.1)
  | inr e ↦ rw e (AscendFrom-filter p k frames (AscendFrom-le k f.id frames (omega arith) a.1))
]

pub Ascend-filter :
    (p : Frame → Bool) (frames : List Frame) → Ascend frames → Ascend (filter p frames)
Ascend-filter p [] a = tt
Ascend-filter p (f ∷ frames) a = elim (Bool-cases (p f)) [
  | inl e ↦ rw e (AscendFrom-filter p f.id frames a)
  | inr e ↦ rw e (Ascend-filter p frames (AscendFrom-Ascend f.id frames a))
]

filter-remove_id :
    (p : Frame → Bool) (j : ℕ) (frames : List Frame)
    → filter p (remove_id j frames) ≡ remove_id j (filter p frames)
unfolding remove_id
filter-remove_id p j [] = refl
filter-remove_id p j (f ∷ frames) = ground (arith, filter-remove_id p j frames)

-- Deleting the row leaves the rows alone that pass a test that it does not pass.
filter-remove_id_other :
    (p : Frame → Bool) (r : Frame) (frames : List Frame)
    → find r.id frames ≡ some r
    → p r ≡ false
    → Ascend frames
    → filter p (remove_id r.id frames) ≡ filter p frames
unfolding remove_id find
filter-remove_id_other p r [] h e a = refl
filter-remove_id_other p r (f ∷ frames) h e a = elim (Bool-cases (f.id == r.id)) [
  | inl same ↦ ground (arith, h, e, same, remove_id-absent r.id f.id frames)
  | inr other ↦
      ground
        (arith, h, e, other, filter-remove_id_other p r frames, AscendFrom-Ascend f.id frames a)
]

pub All-passes : (p : Frame → Bool) (frames : List Frame) → All (λ f. p f ≡ true) (filter p frames)
All-passes p [] = tt
All-passes p (f ∷ frames) = elim (Bool-cases (p f)) [
  | inl e ↦ rw e (e, All-passes p frames)
  | inr e ↦ rw e (All-passes p frames)
]

-- The store `t` is `s` after the rows that pass the test, less `left`, were deleted from it.
pub record Strip (p : Frame → Bool) (s t : Store) (left : List Frame) : Type 0 where
  pub counted : IsCounted t
  pub passing : filter p t.db.frames ≡ left
  pub others : filter (λ f. not (p f)) t.db.frames ≡ filter (λ f. not (p f)) s.db.frames
  pub untouched : Untouched s t

delete_frame-Strip :
    (p : Frame → Bool) (row : Frame) (left : List Frame) (s : Store)
    → IsCounted s
    → filter p s.db.frames ≡ row ∷ left
    → Strip p s (delete_frame row s) left
unfolding delete_frame
delete_frame-Strip p row left s c h =
    let frames = s.db.frames in
    let found : find row.id frames ≡ some row =
      (subst (λ rows. Found frames rows) h
        (All-filter (λ r. find r.id frames ≡ some r) p frames (Ascend-Found frames c.ascend))).0 in
    let passes : p row ≡ true =
      (subst (λ rows. All (λ f. p f ≡ true) rows) h (All-passes p frames)).0 in
    let ascend : Ascend (row ∷ left) = subst Ascend h (Ascend-filter p frames c.ascend) in
    record {
      counted = delete_frame-IsCounted row s found c;
      passing =
          filter-remove_id p row.id frames
          ∙ ap (remove_id row.id) h
          ∙ remove_id-head row left ascend;
      others = filter-remove_id_other (λ f. not (p f)) row frames found (ap not passes) c.ascend;
      untouched = ground arith;
    }

pub delete_rows-Strip :
    (p : Frame → Bool) (rows left : List Frame) (s : Store)
    → IsCounted s
    → filter p s.db.frames ≡ rows ++ left
    → Strip p s (delete_rows rows s) left
unfolding delete_rows
delete_rows-Strip p [] left s c h = record {
  counted = c;
  passing = h;
  others = refl;
  untouched = ground arith;
}
delete_rows-Strip p (row ∷ rows) left s c h =
    let one = delete_frame-Strip p row (rows ++ left) s c h in
    let rest = delete_rows-Strip p rows left (delete_frame row s) one.counted one.passing in
    record {
      counted = rest.counted;
      passing = rest.passing;
      others = rest.others ∙ one.others;
      untouched = ground (arith, one.untouched, rest.untouched);
    }
