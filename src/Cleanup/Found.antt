-- ===== src/Cleanup/Found.antt =====
-- Rows found by their ids, in a table and in the part of it that passes a test.
use cat_automation.Prelude.{
  ℕ, ◌≡◌, subst, inl, inr, ◌⊎◌, Bool, true, some, List, [], ◌∷◌, ◌++◌, ◌==◌, All, All-filter,
  filter, Bool-cases, arith,
}
use cat_automation.Store.Tables.{Frame}
use cat_automation.Store.Rows.{Ascend, find, Ascend-Found}

pub find-All :
    (P : Frame → Type 0) (i : ℕ) (frames : List Frame) {r : Frame}
    → find i frames ≡ some r
    → All P frames
    → P r × (r.id ≡ i)
unfolding find
find-All P i [] h a = cc
find-All P i (f ∷ frames) {r = r} h a = elim (Bool-cases (f.id == i)) [
  | inl here ↦
      let same : f ≡ r = ground (arith, h, here) in (subst P same a.0, ground (arith, here, same))
  | inr other ↦ find-All P i frames (ground (arith, h, other)) a.1
]

pub find-filter :
    (p : Frame → Bool) (i : ℕ) (frames : List Frame) (r : Frame)
    → find i frames ≡ some r
    → p r ≡ true
    → find i (filter p frames) ≡ some r
unfolding find
find-filter p i [] r h e = h
find-filter p i (f ∷ frames) r h e = ground (arith, h, e, find-filter p i frames r)

pub filter-find :
    (p : Frame → Bool) (i : ℕ) (frames : List Frame) (r : Frame)
    → Ascend frames
    → find i (filter p frames) ≡ some r
    → find i frames ≡ some r
filter-find p i frames r a h =
    let (found, here) =
      find-All (λ f. find f.id frames ≡ some f) i (filter p frames) h
        (All-filter (λ f. find f.id frames ≡ some f) p frames (Ascend-Found frames a)) in
    subst (λ j. find j frames ≡ some r) here found

pub find-append :
    (i : ℕ) (xs ys : List Frame) (r : Frame)
    → find i (xs ++ ys) ≡ some r
    → find i xs ≡ some r ⊎ find i ys ≡ some r
unfolding find
find-append i [] ys r h = inr h
find-append i (x ∷ xs) ys r h = ground (arith, h, find-append i xs ys r)
