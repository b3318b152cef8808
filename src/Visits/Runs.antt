-- ===== src/Visits/Runs.antt =====
-- The runs that `Store._gap_split` (compute/collection/store.py) returns, by a recursion from the right.
use cat_automation.Prelude.{
  ℕ, ◌+◌, ◌-◌, ◌<◌, ◌≤◌, ◌≡◌, refl, ap, ◌∙◌, inl, inr, some, List, [], ◌∷◌, ◌++◌, flatten,
  append_assoc, ltb, if◌then◌else◌, last_or, All, Bool-cases, lt→ltb, le→not-ltb, arith,
}
use cat_automation.Visits.Split.{push_run, split_loop, gap_split}

module _ {ℓ} {A : Type ℓ} (gap_ms : ℕ) (ts_of : A → ℕ) where
  -- The run that `x` begins, less `x` itself, and the runs after it.
  unfoldable pub runs_from : A → List A → List A × List (List A)
  runs_from x [] = ([], [])
  runs_from x (y ∷ ys) =
      let (run, rest) = runs_from y ys in
      if ltb gap_ms (ts_of y - ts_of x) then ([], (y ∷ run) ∷ rest) else (y ∷ run, rest)

  split_loop-eq-runs_from :
      (runs : List (List A)) (run : List A) (x : A) (xs : List A)
      → split_loop gap_ms ts_of runs (run ++ x ∷ []) (some (ts_of x)) xs
        ≡ runs ++ ((run ++ (x ∷ (runs_from x xs).0)) ∷ (runs_from x xs).1)
  unfolding split_loop runs_from
  split_loop-eq-runs_from runs [] x [] = refl
  split_loop-eq-runs_from runs (r ∷ run) x [] = refl
  split_loop-eq-runs_from runs run x (y ∷ ys) = elim (Bool-cases (ltb gap_ms (ts_of y - ts_of x))) [
    | inl far ↦
        rw far
          (split_loop-eq-runs_from (runs ++ (run ++ x ∷ []) ∷ []) [] y ys ∙ append_assoc runs _ _)
    | inr near ↦ rw near (split_loop-eq-runs_from runs (run ++ x ∷ []) y ys ∙ simp append_assoc)
  ]

  -- The first item and the rest of `gap_split`'s input give the first run and the rest of its runs.
  pub gap_split-cons :
      (x : A) (xs : List A)
      → gap_split gap_ms ts_of (x ∷ xs) ≡ (x ∷ (runs_from x xs).0) ∷ (runs_from x xs).1
  unfolding gap_split split_loop
  gap_split-cons x xs = split_loop-eq-runs_from [] [] x xs

  -- The items after `x` come in the order of their times.
  abbrev pub ChronologicalFrom : A → List A → Type 0
  ChronologicalFrom x [] = Unit
  ChronologicalFrom x (y ∷ ys) = (ts_of x ≤ ts_of y) × ChronologicalFrom y ys

  abbrev pub Chronological : List A → Type 0
  Chronological [] = Unit
  Chronological (x ∷ xs) = ChronologicalFrom x xs

  -- Each item of the run that `x` begins comes after its neighbour, by no more than the gap.
  abbrev LinkedFrom : A → List A → Type 0
  LinkedFrom x [] = Unit
  LinkedFrom x (y ∷ ys) = (ts_of x ≤ ts_of y) × (ts_of y ≤ ts_of x + gap_ms) × LinkedFrom y ys

  -- A run has an item, and its neighbours lie close.
  abbrev pub IsRun : List A → Type 0
  IsRun [] = ⊥
  IsRun (x ∷ xs) = LinkedFrom x xs

  abbrev pub IsNonempty : List A → Type 0
  IsNonempty [] = ⊥
  IsNonempty (x ∷ xs) = Unit

  -- Each run begins more than the gap after the item before it, at first `x`.
  abbrev ApartFrom : A → List (List A) → Type 0
  ApartFrom x [] = Unit
  ApartFrom x ([] ∷ runs) = ⊥
  ApartFrom x ((y ∷ ys) ∷ runs) = (ts_of x + gap_ms < ts_of y) × ApartFrom (last_or y ys) runs

  abbrev pub Apart : List (List A) → Type 0
  Apart [] = Unit
  Apart ([] ∷ runs) = ⊥
  Apart ((x ∷ xs) ∷ runs) = ApartFrom (last_or x xs) runs

  pub record IsClustering (runs : List (List A)) : Type 0 where
    pub linked : All IsRun runs
    pub apart : Apart runs

  flatten-runs_from : (x : A) (xs : List A) → (runs_from x xs).0 ++ flatten (runs_from x xs).1 ≡ xs
  unfolding runs_from flatten
  flatten-runs_from x [] = refl
  flatten-runs_from x (y ∷ ys) = elim (Bool-cases (ltb gap_ms (ts_of y - ts_of x))) [
    | inl far ↦ rw far (ap (λ l. y ∷ l) (flatten-runs_from y ys))
    | inr near ↦ rw near (ap (λ l. y ∷ l) (flatten-runs_from y ys))
  ]

  runs_from-IsNonempty : (x : A) (xs : List A) → All IsNonempty (runs_from x xs).1
  unfolding runs_from
  runs_from-IsNonempty x [] = tt
  runs_from-IsNonempty x (y ∷ ys) = elim (Bool-cases (ltb gap_ms (ts_of y - ts_of x))) [
    | inl far ↦ rw far (tt, runs_from-IsNonempty y ys)
    | inr near ↦ rw near (runs_from-IsNonempty y ys)
  ]

  pub gap_split-IsNonempty : (items : List A) → All IsNonempty (gap_split gap_ms ts_of items)
  unfolding gap_split split_loop push_run
  gap_split-IsNonempty [] = tt
  gap_split-IsNonempty (x ∷ xs) = rw (gap_split-cons x xs) (tt, runs_from-IsNonempty x xs)

  runs_from-linked :
      (x : A) (xs : List A)
      → ChronologicalFrom x xs
      → LinkedFrom x (runs_from x xs).0 × All IsRun (runs_from x xs).1
  unfolding runs_from flatten
  runs_from-linked x [] c = (tt, tt)
  runs_from-linked x (y ∷ ys) c =
      let ih = runs_from-linked y ys c.1 in
      elim (Bool-cases (ltb gap_ms (ts_of y - ts_of x))) [
        | inl far ↦ rw far (tt, ih)
        | inr near ↦ rw near ((c.0, ground arith, ih.0), ih.1)
      ]

  runs_from-apart :
      (x : A) (xs : List A) → ApartFrom (last_or x (runs_from x xs).0) (runs_from x xs).1
  unfolding runs_from flatten
  runs_from-apart x [] = tt
  runs_from-apart x (y ∷ ys) =
      let ih = runs_from-apart y ys in
      elim (Bool-cases (ltb gap_ms (ts_of y - ts_of x))) [
        | inl far ↦ rw far (ground arith, ih)
        | inr near ↦ rw near ih
      ]

  -- For items in the order of their times: the runs, one after the other, are the items; each run holds an
  -- item, and each further item of it comes after the one before it by no more than the gap; and each
  -- run begins more than the gap after the end of the one before it.
  pub gap_split-IsClustering :
      (items : List A)
      → Chronological items
      → (flatten (gap_split gap_ms ts_of items) ≡ items)
        × IsClustering (gap_split gap_ms ts_of items)
  unfolding gap_split split_loop push_run flatten
  gap_split-IsClustering [] c = (refl, record { linked = tt; apart = tt })
  gap_split-IsClustering (x ∷ xs) c = rw (gap_split-cons x xs) (
    ap (λ l. x ∷ l) (flatten-runs_from x xs),
    record { linked = runs_from-linked x xs c; apart = runs_from-apart x xs },
  )

  runs_from-flatten :
      (runs : List (List A)) (x : A) (run : List A)
      → LinkedFrom x run
      → All IsRun runs
      → ApartFrom (last_or x run) runs
      → runs_from x (run ++ flatten runs) ≡ (run, runs)
  unfolding runs_from flatten
  runs_from-flatten [] x [] l a p = refl
  runs_from-flatten ([] ∷ runs) x [] l a p = absurd p
  runs_from-flatten ((y ∷ ys) ∷ runs) x [] l a p = rw (
    lt→ltb gap_ms (ts_of y - ts_of x) (omega (arith, p.0)),
    runs_from-flatten runs y ys a.0 a.1 p.1,
  )
  runs_from-flatten runs x (y ∷ run) l a p = rw (
    le→not-ltb gap_ms (ts_of y - ts_of x) (omega (arith, l.1)),
    runs_from-flatten runs y run l.2 a p,
  )

  -- A clustering is found again from its items alone: no other way of cutting them obeys the rule.
  gap_split-flatten :
      (runs : List (List A)) → IsClustering runs → gap_split gap_ms ts_of (flatten runs) ≡ runs
  unfolding gap_split split_loop push_run flatten
  gap_split-flatten [] c = refl
  gap_split-flatten ([] ∷ runs) c = absurd c.apart
  gap_split-flatten ((x ∷ xs) ∷ runs) c =
      gap_split-cons x (xs ++ flatten runs)
      ∙ ap (λ r. (x ∷ r.0) ∷ r.1) (runs_from-flatten runs x xs c.linked.0 c.linked.1 c.apart)
