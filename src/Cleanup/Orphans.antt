-- ===== src/Cleanup/Orphans.antt =====
-- What the sweep for orphans (compute/collection/cleanup.py) leaves at its end, with a cancel at any time.
use cat_automation.Prelude.{
  ℕ, suc, ◌≡◌, refl, sym, ap, subst, ◌∙◌, Bool, true, false, Option, none, some, List, [], ◌∷◌,
  ◌++◌, append-nil, append_assoc, ◌&&◌, ◌||◌, not, leb, any-append, filter, length, inl, inr,
  Bool-cases, if◌then◌else◌, arith,
}
use cat_automation.Store.Tables.{MediaPath, path_eq, Frame, Store}
use cat_automation.Cleanup.Nonmotion.{is_set}
use cat_automation.Cleanup.Orphan.{
  orphan_batch, has_path, Removal, delete_orphan_batch, OrphanRun, take_file, orphan_loop, flush,
  run_orphan,
}
use cat_automation.Cleanup.Swept.{
  keeps, stays, filter_cong, filter-filter, filter_all, delete_orphan_batch-files,
}

-- The sweep of the files `done` of the store `s`.
abbrev IsSwept : (MediaPath → Bool) → Store → List MediaPath → Removal → Type 0
IsSwept can_remove s done r =
    (r.store.db ≡ s.db) × (r.store.files ≡ filter (stays can_remove s.db.frames done) s.files)

stays_both : (kept a b : Bool) → ((kept || not a) && (kept || not b)) ≡ (kept || not (a || b))
stays_both true a b = refl
stays_both false true b = refl
stays_both false false b = refl

stays-append :
    (can_remove : MediaPath → Bool) (frames : List Frame) (xs ys : List MediaPath) (x : MediaPath)
    → (stays can_remove frames xs x && stays can_remove frames ys x)
      ≡ stays can_remove frames (xs ++ ys) x
stays-append can_remove frames xs ys x =
    stays_both (keeps can_remove frames x) (has_path x xs) (has_path x ys)
    ∙ ap (λ listed. keeps can_remove frames x || not listed)
        (sym (any-append (λ p. path_eq p x) xs ys))

batch-IsSwept :
    (can_remove : MediaPath → Bool) (s : Store) (done rels : List MediaPath) (r : Removal)
    → IsSwept can_remove s done r
    → IsSwept can_remove s (done ++ rels) (delete_orphan_batch can_remove rels r)
batch-IsSwept can_remove s done rels r (db, files) =
    let (db', files') = delete_orphan_batch-files can_remove rels r in
    let frames = s.db.frames in
    (
      db' ∙ db,
      files'
          ∙ ap (λ d. filter (stays can_remove d.frames rels) r.store.files) db
          ∙ ap (filter (stays can_remove frames rels)) files
          ∙ filter-filter (stays can_remove frames rels) (stays can_remove frames done) s.files
          ∙ filter_cong (λ x. stays can_remove frames done x && stays can_remove frames rels x)
              (stays can_remove frames (done ++ rels)) s.files
              (stays-append can_remove frames done rels),
    )

-- The stop event stays set.
is_set_after :
    (cancel_at : Option ℕ) (n : ℕ) → is_set cancel_at n ≡ true → is_set cancel_at (suc n) ≡ true
unfolding is_set
is_set_after none n h = h
is_set_after (some c) n h = ground (arith, h)

-- The run has swept `done` and holds the rest of what it has seen.
abbrev IsAt : (MediaPath → Bool) → Store → List MediaPath → List MediaPath → OrphanRun → Type 0
IsAt can_remove s done rels r =
    IsSwept can_remove s done r.removal × (s.files ≡ done ++ (r.buf ++ rels))

take_file-IsAt :
    (can_remove : MediaPath → Bool) (s : Store) (done rels : List MediaPath) (rel : MediaPath)
    (r : OrphanRun)
    → IsAt can_remove s done (rel ∷ rels) r
    → (done' : List MediaPath) × IsAt can_remove s done' rels (take_file can_remove rel r)
unfolding take_file
take_file-IsAt can_remove s done rels rel r (swept, files) =
    let buf = r.buf ++ (rel ∷ []) in
    let moved = files ∙ ap (λ xs. done ++ xs) (sym (append_assoc r.buf (rel ∷ []) rels)) in
    elim (Bool-cases (leb orphan_batch (length buf))) [
      | inl full ↦ rw full (
        done ++ buf,
        (
          batch-IsSwept can_remove s done buf r.removal swept,
          moved ∙ sym (append_assoc done buf rels),
        ),
      )
      | inr room ↦ rw room (done, (swept, moved))
    ]

orphan_loop-IsAt :
    (can_remove : MediaPath → Bool) (cancel_at : Option ℕ) (s : Store) (done rels : List MediaPath)
    (r : OrphanRun)
    → IsAt can_remove s done rels r
    → let r' = orphan_loop can_remove cancel_at rels r in
      (done' rest : List MediaPath) × IsAt can_remove s done' rest r'
      × (is_set cancel_at r'.readings ≡ false → rest ≡ [])
unfolding orphan_loop
orphan_loop-IsAt can_remove cancel_at s done [] r at = (done, [], at, λ e. refl)
orphan_loop-IsAt can_remove cancel_at s done (rel ∷ rels) r at =
    elim (Bool-cases (is_set cancel_at r.readings)) [
      | inl set ↦ rw set (
        done,
        rel ∷ rels,
        at,
        λ clear. ground (arith, clear, is_set_after cancel_at r.readings set),
      )
      | inr clear ↦
          let (done', at') = take_file-IsAt can_remove s done rels rel r at in
          rw clear
            (orphan_loop-IsAt can_remove cancel_at s done' rels (take_file can_remove rel r) at')
    ]

length_zero : (xs : List MediaPath) → leb (length xs) 0 ≡ true → xs ≡ []
length_zero [] h = refl
length_zero (x ∷ xs) h = ground (arith, h)

flush-IsSwept :
    (can_remove : MediaPath → Bool) (cancel_at : Option ℕ) (s : Store) (done rest : List MediaPath)
    (r : OrphanRun)
    → IsAt can_remove s done rest r
    → (is_set cancel_at r.readings ≡ false → rest ≡ [])
    → let r' = flush can_remove cancel_at r in
      (done' rest' : List MediaPath) × IsSwept can_remove s done' r'.removal
      × (s.files ≡ done' ++ rest')
      × (is_set cancel_at r'.readings ≡ false → rest' ≡ [])
unfolding flush
flush-IsSwept can_remove cancel_at s done rest r (swept, files) clear =
    elim (Bool-cases (leb (length r.buf) 0)) [
      | inl empty ↦ rw empty (
        done,
        rest,
        swept,
        files ∙ ap (λ buf. done ++ (buf ++ rest)) (length_zero r.buf empty),
        clear,
      )
      | inr full ↦ rw full (elim (Bool-cases (is_set cancel_at r.readings)) [
        | inl set ↦ rw set (
          done,
          r.buf ++ rest,
          swept,
          files,
          λ unset. ground (arith, unset, is_set_after cancel_at r.readings set),
        )
        | inr unset ↦ rw unset (
          done ++ r.buf,
          rest,
          batch-IsSwept can_remove s done r.buf r.removal swept,
          files ∙ sym (append_assoc done r.buf rest),
          λ e. clear unset,
        )
      ])
    ]

has_path_itself :
    (before files : List MediaPath) (x : MediaPath) → has_path x (before ++ (x ∷ files)) ≡ true
has_path_itself [] files x = ground arith
has_path_itself (y ∷ before) files x = ground (arith, has_path_itself before files x)

stays_known :
    (can_remove : MediaPath → Bool) (frames : List Frame) (before files : List MediaPath)
    (x : MediaPath)
    → stays can_remove frames (before ++ (x ∷ files)) x ≡ keeps can_remove frames x
stays_known can_remove frames before files x =
    ap (λ listed. keeps can_remove frames x || not listed) (has_path_itself before files x)
    ∙ kept_alone (keeps can_remove frames x)
  where
    kept_alone : (kept : Bool) → (kept || not true) ≡ kept
    kept_alone true = refl
    kept_alone false = refl

-- Among the files of the walk, a sweep of them all leaves those with a row.
filter_known :
    (can_remove : MediaPath → Bool) (frames : List Frame) (before files : List MediaPath)
    → filter (stays can_remove frames (before ++ files)) files
      ≡ filter (λ x. keeps can_remove frames x) files
filter_known can_remove frames before [] = refl
filter_known can_remove frames before (x ∷ files) =
    let ih =
      subst
        (λ done.
          filter (stays can_remove frames done) files
          ≡ filter (λ y. keeps can_remove frames y) files)
        (append_assoc before (x ∷ []) files)
        (filter_known can_remove frames (before ++ (x ∷ [])) files) in
    ap
      (λ kept.
        if kept
        then x ∷ filter (stays can_remove frames (before ++ (x ∷ files))) files
        else filter (stays can_remove frames (before ++ (x ∷ files))) files)
      (stays_known can_remove frames before files x)
    ∙ ap (λ xs. if keeps can_remove frames x then x ∷ xs else xs) ih

-- Where no other thread changes the store or its files between the batches, whatever reading of the stop event a
-- cancel comes before: `_run_orphan` leaves every row of the database as it is and removes, from the files
-- of an initial part of the walk, those that no row of `frames` names and that can be removed; no other file
-- is removed. Unless its summary says that the run was canceled, the files left are exactly the files of
-- the walk that a row names or that cannot be removed.
pub run_orphan_removes_unnamed :
    (can_remove : MediaPath → Bool) (cancel_at : Option ℕ) (s : Store)
    → let (t, summary) = run_orphan can_remove cancel_at s in
      (t.db ≡ s.db)
      × ((done rest : List MediaPath) × (s.files ≡ done ++ rest)
          × (t.files ≡ filter (stays can_remove s.db.frames done) s.files))
      × (summary.canceled ≡ false → t.files ≡ filter (λ x. keeps can_remove s.db.frames x) s.files)
unfolding run_orphan
run_orphan_removes_unnamed can_remove cancel_at s =
    let begun : OrphanRun = record {
      removal = record { store = s; deleted = 0 };
      buf = [];
      scanned = 0;
      readings = 0;
    } in
    let (looped, pending, at, clear) = orphan_loop-IsAt can_remove cancel_at s [] s.files begun (
      (refl, sym (filter_all (stays can_remove s.db.frames []) s.files (λ x. ground arith))),
      refl,
    ) in
    let (done, rest, (db, left), files, finished) =
      flush-IsSwept can_remove cancel_at s looped pending
        (orphan_loop can_remove cancel_at s.files begun) at clear in
    (
      db,
      (done, rest, files, left),
      λ unset.
          let all : s.files ≡ done =
            files ∙ ap (λ xs. done ++ xs) (finished unset) ∙ append-nil done in
          left
          ∙ ap (λ xs. filter (stays can_remove s.db.frames xs) s.files) (sym all)
          ∙ filter_known can_remove s.db.frames [] s.files,
    )
