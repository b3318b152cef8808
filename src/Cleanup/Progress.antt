-- ===== src/Cleanup/Progress.antt =====
-- The loop of `CleanupManager._run_nonmotion` (compute/collection/cleanup.py): what has gone and what is
-- left.
use cat_automation.Prelude.{
  ℕ, zero, suc, ◌+◌, ◌≡◌, ◌≤◌, ◌<◌, refl, sym, ap, subst, ◌∙◌, inl, inr, true, false, Option, none,
  some, List, [], ◌∷◌, ◌++◌, append_assoc, max, All, length, length-append, take, drop,
  take-append_drop, length-drop_le, Bool-cases, arith,
}
use cat_automation.Store.Tables.{Frame, Store, max_id}
use cat_automation.Store.Rows.{AscendFrom, Ascend}
use cat_automation.Store.Counted.{IsCounted}
use cat_automation.Store.Purge.{delete_rows, purge_nonmotion_batch}
use cat_automation.Cleanup.Strip.{Ascend-filter, delete_rows-Strip}
use cat_automation.Cleanup.Batch.{selects, selected, newest, purge_nonmotion_batch-eq}
use cat_automation.Cleanup.Nonmotion.{is_set, read_event, Run, after_batch, purge_loop}

-- The rows `gone` were deleted from `s`, and `left` are those that the window still selects.
pub record Progress (until_id : Option ℕ) (s : Store) (r : Run) (gone left : List Frame)
    : Type 0 where
  pub split : selected until_id s ≡ gone ++ left
  pub counted : IsCounted r.store
  pub passing : selected until_id r.store ≡ left
  pub purge_spans : r.store.db.purge_spans ≡ s.db.purge_spans
  pub count : r.deleted ≡ length gone
  pub last : r.last_max ≡ newest gone
  pub running : r.raised ≡ false

max_id-append : (xs ys : List Frame) → max_id (xs ++ ys) ≡ max (max_id xs) (max_id ys)
unfolding max_id
max_id-append [] ys = omega arith
max_id-append (x ∷ xs) ys = omega (arith, max_id-append xs ys)

AscendFrom-above : (j k : ℕ) (ys : List Frame) → j ≤ k → AscendFrom k ys → All (λ f. j < f.id) ys
AscendFrom-above j k [] h a = tt
AscendFrom-above j k (y ∷ ys) h a =
    (omega (arith, a.0), AscendFrom-above j y.id ys (omega (arith, a.0)) a.1)

pub AscendFrom-below :
    (k : ℕ) (xs ys : List Frame) → AscendFrom k (xs ++ ys) → All (λ f. max k (max_id xs) < f.id) ys
unfolding max_id
AscendFrom-below k [] ys a = AscendFrom-above (max k 0) k ys (omega arith) a
AscendFrom-below k (x ∷ xs) ys a =
    let top : max x.id (max_id xs) ≡ max k (max x.id (max_id xs)) = omega (arith, a.0) in
    subst (λ j. All (λ f. j < f.id) ys) top (AscendFrom-below x.id xs ys a.1)

newest-append :
    (gone : List Frame) (f : Frame) (rows left : List Frame)
    → Ascend (gone ++ (f ∷ (rows ++ left)))
    → newest (f ∷ rows) ≡ newest (gone ++ f ∷ rows)
unfolding max_id
newest-append [] f rows left a = refl
newest-append (g ∷ gone) f rows left a =
    let below = (AscendFrom-below g.id gone (f ∷ (rows ++ left)) a).0 in
    ap some (omega (arith, max_id-append gone (f ∷ rows), below))

-- Once the event is set, it stays set.
pub is_set-suc :
    (cancel_at : Option ℕ) (i : ℕ) → is_set cancel_at i ≡ true → is_set cancel_at (suc i) ≡ true
unfolding is_set
is_set-suc none i h = h
is_set-suc (some cancel_at) i h = ground (arith, h)

-- A round of the loop that finds rows.
round-Progress :
    (until_id : Option ℕ) (s : Store) (r : Run) (gone : List Frame) (f : Frame)
    (rows left : List Frame)
    → IsCounted s
    → Progress until_id s r gone (f ∷ (rows ++ left))
    → Progress until_id s
        (record (read_event r) {
          store = delete_rows (f ∷ rows) r.store;
          deleted = r.deleted + suc (length rows);
          last_max = newest (f ∷ rows);
        })
        (gone ++ f ∷ rows)
        left
unfolding read_event
round-Progress until_id s r gone f rows left c p =
    let one = delete_rows-Strip (selects until_id) (f ∷ rows) left r.store p.counted p.passing in
    let ascend : Ascend (gone ++ (f ∷ (rows ++ left))) =
      subst Ascend p.split (Ascend-filter (selects until_id) s.db.frames c.ascend) in
    record {
      split = p.split ∙ sym (append_assoc gone (f ∷ rows) left);
      counted = one.counted;
      passing = one.passing;
      purge_spans = one.untouched.purge_spans ∙ p.purge_spans;
      count = omega (arith, p.count, length-append gone (f ∷ rows));
      last = newest-append gone f rows left ascend;
      running = p.running;
    }

-- A run that the loop can end with: if the event is clear then, nothing is left.
pub record Ended (cancel_at until_id : Option ℕ) (s : Store) (r : Run) : Type 0 where
  pub gone : List Frame
  pub left : List Frame
  pub progress : Progress until_id s r gone left
  pub drained : is_set cancel_at r.readings ≡ false → left ≡ []

read_event-Progress :
    (until_id : Option ℕ) (s : Store) (r : Run) (gone left : List Frame)
    → Progress until_id s r gone left
    → Progress until_id s (read_event r) gone left
unfolding read_event
read_event-Progress until_id s r gone left p = record {
  split = p.split;
  counted = p.counted;
  passing = p.passing;
  purge_spans = p.purge_spans;
  count = p.count;
  last = p.last;
  running = p.running;
}

-- The other threads leave the rows that the window selects as they are, and record no span.
pub record Leaves (until_id : Option ℕ) (s t : Store) : Type 0 where
  pub counted : IsCounted t
  pub selected_rows : selected until_id t ≡ selected until_id s
  pub purge_spans : t.db.purge_spans ≡ s.db.purge_spans

-- What the other threads make of the store before a hold of its lock.
abbrev pub disturbed : (ℕ → Store → Store) → Run → Run
disturbed others r = record r { store = others r.readings r.store }

-- A run after the next batch.
unfoldable pub after_round : ℕ → (ℕ → Store → Store) → Option ℕ → Run → Run
after_round batch_size others until_id r =
    let found = disturbed others r in
    let (t, b) = purge_nonmotion_batch false until_id batch_size found.store in
    (after_batch t b (read_event found)).0

-- They do so before each round of the loop.
unfoldable pub LoopLeaves : ℕ → ℕ → (ℕ → Store → Store) → Option ℕ → Run → Type 0
LoopLeaves zero batch_size others until_id r = r ≡ r
LoopLeaves (suc fuel) batch_size others until_id r =
    Leaves until_id r.store (others r.readings r.store)
    × LoopLeaves fuel batch_size others until_id (after_round batch_size others until_id r)

pub disturbed-Progress :
    (others : ℕ → Store → Store) (until_id : Option ℕ) (s : Store) (r : Run)
    (gone left : List Frame)
    → Leaves until_id r.store (others r.readings r.store)
    → Progress until_id s r gone left
    → Progress until_id s (disturbed others r) gone left
disturbed-Progress others until_id s r gone left l p = record {
  split = p.split;
  counted = l.counted;
  passing = l.selected_rows ∙ p.passing;
  purge_spans = l.purge_spans ∙ p.purge_spans;
  count = p.count;
  last = p.last;
  running = p.running;
}

set_event-Ended :
    (cancel_at until_id : Option ℕ) (s : Store) (r : Run) (gone left : List Frame)
    → is_set cancel_at r.readings ≡ true
    → Progress until_id s r gone left
    → Ended cancel_at until_id s (read_event r)
unfolding read_event
set_event-Ended cancel_at until_id s r gone left set p =
    let still_set = is_set-suc cancel_at r.readings set in
    record {
      gone = gone;
      left = left;
      progress = read_event-Progress until_id s r gone left p;
      drained = λ clear. cc;
    }

after_batch-rows :
    (t : Store) (k : ℕ) (m : Option ℕ) (r : Run)
    → after_batch t (some (record { deleted = suc k; max_deleted_id = m })) r
      ≡ (record r { store = t; deleted = r.deleted + suc k; last_max = m }, true)
unfolding after_batch
after_batch-rows t k m r = ground arith

pub purge_loop-Ended :
    (fuel n : ℕ) (others : ℕ → Store → Store) (cancel_at until_id : Option ℕ) (s : Store) (r : Run)
    (gone left : List Frame)
    → IsCounted s
    → length left < fuel
    → LoopLeaves fuel (suc n) others until_id r
    → Progress until_id s r gone left
    → Ended cancel_at until_id s (purge_loop fuel (suc n) (λ i. false) others cancel_at until_id r)
unfolding purge_loop delete_rows LoopLeaves after_round
purge_loop-Ended zero n others cancel_at until_id s r gone left c h leaves p =
    absurd (omega (arith, h))
purge_loop-Ended (suc fuel) n others cancel_at until_id s r gone [] c h leaves p =
    let r1 = disturbed others r in
    let p1 = disturbed-Progress others until_id s r gone [] leaves.0 p in
    let e = purge_nonmotion_batch-eq until_id (suc n) r1.store [] p1.passing in
    elim (Bool-cases (is_set cancel_at r.readings)) [
      | inl set ↦ rw set (set_event-Ended cancel_at until_id s r gone [] set p)
      | inr clear ↦
          rw (clear, e)
            (record {
              gone = gone;
              left = [];
              progress = read_event-Progress until_id s r1 gone [] p1;
              drained = λ h. refl;
            })
    ]
purge_loop-Ended (suc fuel) n others cancel_at until_id s r gone (f ∷ left) c h leaves p =
    let r1 = disturbed others r in
    let p1 = disturbed-Progress others until_id s r gone (f ∷ left) leaves.0 p in
    let e = purge_nonmotion_batch-eq until_id (suc n) r1.store (f ∷ left) p1.passing in
    elim (Bool-cases (is_set cancel_at r.readings)) [
      | inl set ↦ rw set (set_event-Ended cancel_at until_id s r gone (f ∷ left) set p)
      | inr clear ↦
          let rows = take n left in
          let left' = drop n left in
          let whole = take-append_drop n left in
          let p' : Progress until_id s r1 gone (f ∷ (rows ++ left')) =
            subst (λ l. Progress until_id s r1 gone (f ∷ l)) (sym whole) p1 in
          let batch =
            after_batch-rows (delete_rows (f ∷ rows) r1.store) (length rows) (newest (f ∷ rows))
              (read_event r1) in
          let leaves' =
            subst (LoopLeaves fuel (suc n) others until_id)
              (ap (λ o. (after_batch o.0 o.1 (read_event r1)).0) e ∙ ap (λ o. o.0) batch)
              leaves.1 in
          rw (clear, e, batch)
            (purge_loop-Ended fuel n others cancel_at until_id s _ (gone ++ f ∷ rows) left' c
              (omega (arith, h, length-drop_le n left)) leaves'
              (round-Progress until_id s r1 gone f rows left' c p'))
    ]
