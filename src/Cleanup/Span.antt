-- ===== src/Cleanup/Span.antt =====
-- Where the span ends that `CleanupManager._run_nonmotion` (compute/collection/cleanup.py) records.
use cat_automation.Prelude.{
  ℕ, ◌≡◌, ◌≤◌, ◌<◌, refl, subst, inl, inr, Bool, true, false, Option, none, some, List, [], ◌∷◌,
  ◌++◌, All, All-map, filter, leb, leb→le, if◌then◌else◌, Bool-cases, arith,
}
use cat_automation.Store.Tables.{Frame, max_id}
use cat_automation.Store.Rows.{Ascend}
use cat_automation.Store.Purge.{up_to}
use cat_automation.Cleanup.Batch.{newest}
use cat_automation.Cleanup.Progress.{AscendFrom-below}
use cat_automation.Cleanup.Nonmotion.{effective_end}

pub max_id-above : (xs : List Frame) (k : ℕ) → max_id xs ≤ k → All (λ f. f.id ≤ k) xs
unfolding max_id
max_id-above [] k h = tt
max_id-above (x ∷ xs) k h = (omega (arith, h), max_id-above xs k (omega (arith, h)))

max_id-le : (xs : List Frame) (k : ℕ) → All (λ f. f.id ≤ k) xs → max_id xs ≤ k
unfolding max_id
max_id-le [] k h = omega arith
max_id-le (x ∷ xs) k h = omega (arith, h.0, max_id-le xs k h.1)

-- All frames that have gone lie at or below the end, all selected ones that are left above it, and
-- the window reaches at least as far.
pub record IsEnd (until_id : Option ℕ) (end : ℕ) (gone left : List Frame) : Type 0 where
  pub gone_below : All (λ f. f.id ≤ end) gone
  pub left_above : All (λ f. end < f.id) left
  pub within : (i : ℕ) → up_to until_id i ≡ false → end < i

newest-IsEnd :
    (until_id : Option ℕ) (g : Frame) (gone left : List Frame)
    → Ascend (g ∷ (gone ++ left))
    → All (λ f. up_to until_id f.id ≡ true) (g ∷ gone)
    → IsEnd until_id (max_id (g ∷ gone)) (g ∷ gone) left
unfolding max_id up_to
newest-IsEnd none g gone left a u = record {
  gone_below = max_id-above (g ∷ gone) (max_id (g ∷ gone)) (omega arith);
  left_above = AscendFrom-below g.id gone left a;
  within = λ i h. cc;
}
newest-IsEnd (some until_id) g gone left a u =
    let below = max_id-le (g ∷ gone) until_id (
      All-map (λ f. leb f.id until_id ≡ true) (λ f. f.id ≤ until_id) (g ∷ gone)
        (λ f h. leb→le f.id until_id h) u) in
    record {
      gone_below = max_id-above (g ∷ gone) (max_id (g ∷ gone)) (omega arith);
      left_above = AscendFrom-below g.id gone left a;
      within = λ i h. ground (arith, h, below);
    }

pub effective_end-IsEnd :
    (canceled : Bool) (until_id : Option ℕ) (g : Frame) (gone left : List Frame)
    → Ascend (g ∷ (gone ++ left))
    → All (λ f. up_to until_id f.id ≡ true) (g ∷ gone)
    → (canceled ≡ false → left ≡ [])
    → (end : ℕ) × (effective_end canceled until_id (newest (g ∷ gone)) ≡ some end)
      × IsEnd until_id end (g ∷ gone) left
unfolding effective_end
effective_end-IsEnd true until_id g gone left a u d =
    (max_id (g ∷ gone), refl, newest-IsEnd until_id g gone left a u)
effective_end-IsEnd false none g gone left a u d =
    (max_id (g ∷ gone), refl, newest-IsEnd none g gone left a u)
effective_end-IsEnd false (some until_id) g gone left a u d = (
  until_id,
  refl,
  record {
    gone_below =
        unfold up_to in
        All-map (λ f. leb f.id until_id ≡ true) (λ f. f.id ≤ until_id) (g ∷ gone)
          (λ f h. leb→le f.id until_id h) u;
    left_above = rw (d refl) tt;
    within = unfold up_to in λ i h. ground (arith, h);
  },
)

-- What holds of the rows that pass a test and of all that do not holds of all rows.
pub All-from_filter :
    (P : Frame → Type 0) (p : Frame → Bool) (frames : List Frame)
    → ((f : Frame) → p f ≡ false → P f)
    → All P (filter p frames)
    → All P frames
All-from_filter P p [] other a = tt
All-from_filter P p (f ∷ frames) other a = elim (Bool-cases (p f)) [
  | inl e ↦
      let a' : All P (f ∷ filter p frames) =
        subst (λ b. All P (if b then f ∷ filter p frames else filter p frames)) e a in
      (a'.0, All-from_filter P p frames other a'.1)
  | inr e ↦
      let a' : All P (filter p frames) =
        subst (λ b. All P (if b then f ∷ filter p frames else filter p frames)) e a in
      (other f e, All-from_filter P p frames other a')
]
