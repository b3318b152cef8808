-- ===== src/Spans/Union.antt =====
-- The ids that the spans of `_coalesce_id_spans` (compute/collection/store.py) hold.
use cat_automation.Prelude.{
  ℕ, ◌≤◌, ◌<◌, ◌≡◌, refl, sym, ap, ◌∙◌, append_assoc, leb→le, not-leb→lt, any-append, any-sort_by,
  Bool, true, false, inl, inr, List, [], ◌∷◌, ◌++◌, ◌&&◌, ◌||◌, leb, max, any, sort_by, Sorted,
  SortedFrom, sort_by-Sorted, Bool-cases, arith,
}
use cat_automation.Spans.Coalesce.{IdSpan, key_le, merge_loop, merge_sorted, coalesce_id_spans}

abbrev pub holds : ℕ → IdSpan → Bool
holds i s = leb s.start_id i && leb i s.end_id

-- Whether some span holds the id.
abbrev pub covers : List IdSpan → ℕ → Bool
covers spans i = any (holds i) spans

-- The part of the key order that merging needs.
abbrev StartsFrom : ℕ → List IdSpan → Type 0
StartsFrom k [] = Unit
StartsFrom k (s ∷ spans) = (k ≤ s.start_id) × StartsFrom s.start_id spans

Sorted-StartsFrom :
    (a : IdSpan) (spans : List IdSpan) → SortedFrom key_le a spans → StartsFrom a.start_id spans
unfolding key_le
Sorted-StartsFrom a [] s = tt
Sorted-StartsFrom a (b ∷ spans) s = (ground arith, Sorted-StartsFrom b spans s.1)

key_le_total : (a b : IdSpan) → key_le a b ≡ false → key_le b a ≡ true
unfolding key_le
key_le_total a b h = ground arith

StartsFrom-le : (k j : ℕ) (spans : List IdSpan) → k ≤ j → StartsFrom j spans → StartsFrom k spans
StartsFrom-le k j [] h s = tt
StartsFrom-le k j (a ∷ spans) h s = (omega arith, s.1)

holds-merge :
    (i : ℕ) (a b : IdSpan)
    → a.start_id ≤ b.start_id
    → b.start_id ≤ a.end_id
    → holds i (record a { end_id = max a.end_id b.end_id }) ≡ holds i a || holds i b
holds-merge i a b h k = ground arith

merge_loop-covers :
    (i : ℕ) (merged : List IdSpan) (last : IdSpan) (spans : List IdSpan)
    → StartsFrom last.start_id spans
    → covers (merge_loop merged last spans) i ≡ covers merged i || (holds i last || covers spans i)
unfolding merge_loop
merge_loop-covers i merged last [] s = ground (arith, any-append (holds i) merged (last ∷ []))
merge_loop-covers i merged last (b ∷ spans) s = elim (Bool-cases (leb b.start_id last.end_id)) [
  | inl overlap ↦
      let last' : IdSpan = record last { end_id = max last.end_id b.end_id } in
      let later = StartsFrom-le last.start_id b.start_id spans s.0 s.1 in
      ground (
        arith,
        overlap,
        merge_loop-covers i merged last' spans later,
        holds-merge i last b s.0 (leb→le b.start_id last.end_id overlap),
      )
  | inr clear ↦ ground (
    arith,
    clear,
    merge_loop-covers i (merged ++ last ∷ []) b spans s.1,
    any-append (holds i) merged (last ∷ []),
  )
]

-- Every id lies in some coalesced span exactly when it lies in some given one.
pub coalesce_id_spans-covers :
    (spans : List IdSpan) (i : ℕ) → covers (coalesce_id_spans spans) i ≡ covers spans i
unfolding coalesce_id_spans
coalesce_id_spans-covers spans i =
    merge_sorted-covers (sort_by key_le spans) (sort_by-Sorted key_le key_le_total spans)
    ∙ any-sort_by key_le (holds i) spans
  where
    merge_sorted-covers :
        (sorted : List IdSpan)
        → Sorted key_le sorted
        → covers (merge_sorted sorted) i ≡ covers sorted i
    merge_sorted-covers [] s = refl
    merge_sorted-covers (a ∷ sorted) s =
        merge_loop-covers i [] a sorted (Sorted-StartsFrom a sorted s)

-- Each span begins after the one before it ends, at first one that ends at `e`.
abbrev ApartFrom : ℕ → List IdSpan → Type 0
ApartFrom e [] = Unit
ApartFrom e (s ∷ spans) = (e < s.start_id) × ApartFrom s.end_id spans

abbrev pub SpansApart : List IdSpan → Type 0
SpansApart [] = Unit
SpansApart (s ∷ spans) = ApartFrom s.end_id spans

merge_loop-append :
    (merged : List IdSpan) (last : IdSpan) (spans : List IdSpan)
    → merge_loop merged last spans ≡ merged ++ merge_loop [] last spans
unfolding merge_loop
merge_loop-append merged last [] = refl
merge_loop-append merged last (b ∷ spans) = elim (Bool-cases (leb b.start_id last.end_id)) [
  | inl overlap ↦
      rw overlap
        (merge_loop-append merged (record last { end_id = max last.end_id b.end_id }) spans)
  | inr clear ↦ rw clear (
      merge_loop-append (merged ++ last ∷ []) b spans
      ∙ append_assoc merged (last ∷ []) (merge_loop [] b spans)
      ∙ ap (λ l. merged ++ l) (sym (merge_loop-append (last ∷ []) b spans)))
]

merge_loop-ApartFrom :
    (e : ℕ) (last : IdSpan) (spans : List IdSpan)
    → e < last.start_id
    → ApartFrom e (merge_loop [] last spans)
unfolding merge_loop
merge_loop-ApartFrom e last [] h = (h, tt)
merge_loop-ApartFrom e last (b ∷ spans) h = elim (Bool-cases (leb b.start_id last.end_id)) [
  | inl overlap ↦
      rw overlap
        (merge_loop-ApartFrom e (record last { end_id = max last.end_id b.end_id }) spans h)
  | inr clear ↦
      let after = not-leb→lt b.start_id last.end_id clear in
      rw (clear, merge_loop-append (last ∷ []) b spans)
        (h, merge_loop-ApartFrom last.end_id b spans after)
]

merge_loop-apart : (last : IdSpan) (spans : List IdSpan) → SpansApart (merge_loop [] last spans)
unfolding merge_loop
merge_loop-apart last [] = tt
merge_loop-apart last (b ∷ spans) = elim (Bool-cases (leb b.start_id last.end_id)) [
  | inl overlap ↦
      rw overlap (merge_loop-apart (record last { end_id = max last.end_id b.end_id }) spans)
  | inr clear ↦
      let after = not-leb→lt b.start_id last.end_id clear in
      rw (clear, merge_loop-append (last ∷ []) b spans)
        (merge_loop-ApartFrom last.end_id b spans after)
]

-- Each coalesced span ends before the next one begins.
coalesce_id_spans-apart : (spans : List IdSpan) → SpansApart (coalesce_id_spans spans)
unfolding coalesce_id_spans
coalesce_id_spans-apart spans = merge_sorted-apart (sort_by key_le spans)
  where
    merge_sorted-apart : (sorted : List IdSpan) → SpansApart (merge_sorted sorted)
    merge_sorted-apart [] = tt
    merge_sorted-apart (a ∷ sorted) = merge_loop-apart a sorted
