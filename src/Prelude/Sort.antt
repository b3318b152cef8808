-- ===== src/Prelude/Sort.antt =====
-- Stable sorting by a Boolean order, as Python's `sorted` and SQL's ORDER BY do it.
use mathlib.Core.Path.{◌≡◌, refl, ap, ◌∙◌}
use mathlib.Core.Logic.{inl, inr}
use mathlib.Core.Bool.{Bool, true, false, ◌||◌}
use mathlib.Core.List.{List, [], ◌∷◌, ◌++◌}
use native.Mathlib.Omega.{arith}
use Prim.Native.Nat.{ℕ, zero, suc}
use cat_automation.Prelude.Lists.{any, All, filter, take}
use cat_automation.Prelude.Tests.{if◌then◌else◌, Bool-cases}

module _ {ℓ} {A : Type ℓ} (le : A → A → Bool) where
  abbrev pub insert_by : A → List A → List A
  insert_by a [] = a ∷ []
  insert_by a (x ∷ xs) = if le a x then a ∷ x ∷ xs else x ∷ insert_by a xs

  abbrev pub sort_by : List A → List A
  sort_by [] = []
  sort_by (x ∷ xs) = insert_by x (sort_by xs)

  -- Each element is at most its right neighbour.
  abbrev pub SortedFrom : A → List A → Type 0
  SortedFrom a [] = Unit
  SortedFrom a (x ∷ xs) = (le a x ≡ true) × SortedFrom x xs

  abbrev pub Sorted : List A → Type 0
  Sorted [] = Unit
  Sorted (x ∷ xs) = SortedFrom x xs

  sort_by-SortedFrom : (a : A) (xs : List A) → SortedFrom a xs → sort_by (a ∷ xs) ≡ a ∷ xs
  sort_by-SortedFrom a [] s = refl
  sort_by-SortedFrom a (x ∷ xs) s = rw (sort_by-SortedFrom x xs s.1, s.0)

  -- A sorted list is left as it is.
  pub sort_by-eq_self : (xs : List A) → Sorted xs → sort_by xs ≡ xs
  sort_by-eq_self [] s = refl
  sort_by-eq_self (x ∷ xs) s = sort_by-SortedFrom x xs s

module _ {ℓ} {A : Type ℓ} (le : A → A → Bool)
    (total : (a b : A) → le a b ≡ false → le b a ≡ true) where
  insert_by-SortedFrom :
      (b a : A) (xs : List A)
      → le b a ≡ true
      → SortedFrom le b xs
      → SortedFrom le b (insert_by le a xs)
  insert_by-SortedFrom b a [] h s = (h, tt)
  insert_by-SortedFrom b a (x ∷ xs) h s = elim (Bool-cases (le a x)) [
    | inl e ↦ rw e (h, (e, s.1))
    | inr e ↦ rw e (s.0, insert_by-SortedFrom x a xs (total a x e) s.1)
  ]

  insert_by-Sorted : (a : A) (xs : List A) → Sorted le xs → Sorted le (insert_by le a xs)
  insert_by-Sorted a [] s = tt
  insert_by-Sorted a (x ∷ xs) s = elim (Bool-cases (le a x)) [
    | inl e ↦ rw e (e, s)
    | inr e ↦ rw e (insert_by-SortedFrom x a xs (total a x e) s)
  ]

  -- Sorting sorts, where the order is total.
  pub sort_by-Sorted : (xs : List A) → Sorted le (sort_by le xs)
  sort_by-Sorted [] = tt
  sort_by-Sorted (x ∷ xs) = insert_by-Sorted x (sort_by le xs) (sort_by-Sorted xs)

pub any-append {ℓ} :
    {A : Type ℓ} (p : A → Bool) (xs ys : List A) → any p (xs ++ ys) ≡ any p xs || any p ys
any-append p [] ys = refl
any-append p (x ∷ xs) ys = ground (arith, any-append p xs ys)

pub any-insert_by {ℓ} :
    {A : Type ℓ} (le : A → A → Bool) (p : A → Bool) (a : A) (xs : List A)
    → any p (insert_by le a xs) ≡ p a || any p xs
any-insert_by le p a [] = refl
any-insert_by le p a (x ∷ xs) = ground (arith, any-insert_by le p a xs)

pub any-sort_by {ℓ} :
    {A : Type ℓ} (le : A → A → Bool) (p : A → Bool) (xs : List A) → any p (sort_by le xs) ≡ any p xs
any-sort_by le p [] = refl
any-sort_by le p (x ∷ xs) =
    any-insert_by le p x (sort_by le xs) ∙ ap (λ b. p x || b) (any-sort_by le p xs)

module _ {ℓ κ} {A : Type ℓ} (P : A → Type κ) where
  pub All-append : (xs ys : List A) → All P xs → All P ys → All P (xs ++ ys)
  All-append [] ys h k = k
  All-append (x ∷ xs) ys h k = (h.0, All-append xs ys h.1 k)

  pub All-front : (xs ys : List A) → All P (xs ++ ys) → All P xs
  All-front [] ys a = tt
  All-front (x ∷ xs) ys a = (a.0, All-front xs ys a.1)

  pub All-map {κ'} : (Q : A → Type κ') (xs : List A) → ((x : A) → P x → Q x) → All P xs → All Q xs
  All-map Q [] g a = tt
  All-map Q (x ∷ xs) g a = (g x a.0, All-map Q xs g a.1)

  pub All-filter : (p : A → Bool) (xs : List A) → All P xs → All P (filter p xs)
  All-filter p [] h = tt
  All-filter p (x ∷ xs) h = elim (Bool-cases (p x)) [
    | inl e ↦ rw e (h.0, All-filter p xs h.1)
    | inr e ↦ rw e (All-filter p xs h.1)
  ]

  pub All-take : (n : ℕ) (xs : List A) → All P xs → All P (take n xs)
  All-take zero xs h = tt
  All-take (suc n) [] h = tt
  All-take (suc n) (x ∷ xs) h = (h.0, All-take n xs h.1)

  pub All-insert_by :
      (le : A → A → Bool) (a : A) (xs : List A) → P a → All P xs → All P (insert_by le a xs)
  All-insert_by le a [] p h = (p, tt)
  All-insert_by le a (x ∷ xs) p h = elim (Bool-cases (le a x)) [
    | inl e ↦ rw e (p, h)
    | inr e ↦ rw e (h.0, All-insert_by le a xs p h.1)
  ]

  pub All-sort_by : (le : A → A → Bool) (xs : List A) → All P xs → All P (sort_by le xs)
  All-sort_by le [] h = tt
  All-sort_by le (x ∷ xs) h = All-insert_by le x (sort_by le xs) h.0 (All-sort_by le xs h.1)
