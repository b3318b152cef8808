-- ===== src/Cleanup/Swept.antt =====
-- Which media files the sweep for orphans (compute/collection/cleanup.py) leaves.
use cat_automation.Prelude.{
  ◌≡◌, refl, sym, ap, subst, ◌∙◌, Bool, true, false, List, [], ◌∷◌, ◌&&◌, ◌||◌, not, filter, inl,
  inr, Bool-cases, arith,
}
use cat_automation.Store.Tables.{MediaPath, path_eq, Frame, Db}
use cat_automation.Store.Delete.{unlink}
use cat_automation.Cleanup.Orphan.{
  is_referenced, has_path, uniq_after, Removal, sweep_file, sweep_files, delete_orphan_batch,
}

-- A row names the file, or it cannot be removed.
abbrev pub keeps : (MediaPath → Bool) → List Frame → MediaPath → Bool
keeps can_remove frames file = is_referenced file frames || not (can_remove file)

-- A file stays that is kept or that was not among the candidates.
abbrev pub stays : (MediaPath → Bool) → List Frame → List MediaPath → MediaPath → Bool
stays can_remove frames done file = keeps can_remove frames file || not (has_path file done)

pub filter_cong :
    (p q : MediaPath → Bool) (xs : List MediaPath)
    → ((x : MediaPath) → p x ≡ q x)
    → filter p xs ≡ filter q xs
filter_cong p q [] h = refl
filter_cong p q (x ∷ xs) h = ground (arith, h x, filter_cong p q xs h)

pub filter-filter :
    (p q : MediaPath → Bool) (xs : List MediaPath)
    → filter p (filter q xs) ≡ filter (λ x. q x && p x) xs
filter-filter p q [] = refl
filter-filter p q (x ∷ xs) = ground (arith, filter-filter p q xs)

pub filter_all :
    (p : MediaPath → Bool) (xs : List MediaPath) → ((x : MediaPath) → p x ≡ true) → filter p xs ≡ xs
filter_all p [] h = refl
filter_all p (x ∷ xs) h = ground (arith, h x, filter_all p xs h)

path_eq-eq : (p q : MediaPath) → path_eq p q ≡ true → p ≡ q
path_eq-eq p q h =
    let same_ts : p.recv_ts ≡ q.recv_ts = ground (arith, h) in
    let same_id : p.frame_id ≡ q.frame_id = ground (arith, h) in
    λ i. record { recv_ts = same_ts i; frame_id = same_id i }

path_eq_comm : (p q : MediaPath) → path_eq p q ≡ path_eq q p
path_eq_comm p q = ground arith

-- The four cases of `stays-cons`, with the tests as Booleans.
stays_table :
    (kept_rel kept_x same listed : Bool)
    → (same ≡ true → kept_x ≡ kept_rel)
    → ((kept_rel || not same) && (kept_x || not listed)) ≡ (kept_x || not (same || listed))
stays_table true kept_x true listed h = rw (h refl) refl
stays_table false kept_x true listed h = rw (h refl) refl
stays_table true kept_x false listed h = refl
stays_table false kept_x false listed h = refl

-- One candidate before the others.
stays-cons :
    (can_remove : MediaPath → Bool) (frames : List Frame) (rel : MediaPath) (rels : List MediaPath)
    (x : MediaPath)
    → ((keeps can_remove frames rel || not (path_eq x rel)) && stays can_remove frames rels x)
      ≡ stays can_remove frames (rel ∷ rels) x
stays-cons can_remove frames rel rels x =
    stays_table (keeps can_remove frames rel) (keeps can_remove frames x) (path_eq x rel)
      (has_path x rels) (λ e. ap (λ p. keeps can_remove frames p) (path_eq-eq x rel e))
    ∙ ap (λ same. keeps can_remove frames x || not (same || has_path x rels)) (path_eq_comm x rel)

sweep_file-files :
    (can_remove : MediaPath → Bool) (rel : MediaPath) (r : Removal)
    → let r' = sweep_file can_remove rel r in
      (r'.store.db ≡ r.store.db)
      × (r'.store.files
          ≡ filter
              (λ x. keeps can_remove r.store.db.frames rel || not (path_eq x rel))
              r.store.files)
unfolding sweep_file unlink
sweep_file-files can_remove rel r = elim (Bool-cases (keeps can_remove r.store.db.frames rel)) [
  | inl kept ↦ rw kept (refl, sym (filter_all (λ x. true) r.store.files (λ x. refl)))
  | inr orphan ↦ rw orphan (refl, refl)
]

sweep_files-files :
    (can_remove : MediaPath → Bool) (rels : List MediaPath) (r : Removal)
    → let r' = sweep_files can_remove rels r in
      (r'.store.db ≡ r.store.db)
      × (r'.store.files ≡ filter (stays can_remove r.store.db.frames rels) r.store.files)
unfolding sweep_files
sweep_files-files can_remove [] r = (
  refl,
  sym (filter_all (stays can_remove r.store.db.frames []) r.store.files (λ x. ground arith)),
)
sweep_files-files can_remove (rel ∷ rels) r =
    let (db, files) = sweep_file-files can_remove rel r in
    let (db', files') = sweep_files-files can_remove rels (sweep_file can_remove rel r) in
    let frames = r.store.db.frames in
    let one : MediaPath → Bool = λ x. keeps can_remove frames rel || not (path_eq x rel) in
    (
      db' ∙ db,
      files'
          ∙ ap
              (λ (d : Db).
                filter (stays can_remove d.frames rels) (sweep_file can_remove rel r).store.files)
              db
          ∙ ap (filter (stays can_remove frames rels)) files
          ∙ filter-filter (stays can_remove frames rels) one r.store.files
          ∙ filter_cong (λ x. one x && stays can_remove frames rels x)
              (stays can_remove frames (rel ∷ rels)) r.store.files
              (stays-cons can_remove frames rel rels),
    )

uniq_listed :
    (same listed after rest : Bool)
    → (same ≡ true → listed ≡ true)
    → ((same || listed) || after) ≡ ((same || listed) || rest)
    → (listed || after) ≡ (listed || (same || rest))
uniq_listed true listed after rest h ih = rw (h refl) refl
uniq_listed false listed after rest h ih = ih

uniq_fresh :
    (same listed after rest : Bool)
    → ((same || listed) || after) ≡ ((same || listed) || rest)
    → (listed || (same || after)) ≡ (listed || (same || rest))
uniq_fresh true true after rest ih = refl
uniq_fresh true false after rest ih = refl
uniq_fresh false true after rest ih = refl
uniq_fresh false false after rest ih = ih

-- Dropping the repeated candidates does not change which paths are among them.
has_path-uniq_after :
    (x : MediaPath) (seen rels : List MediaPath)
    → (has_path x seen || has_path x (uniq_after seen rels)) ≡ (has_path x seen || has_path x rels)
unfolding uniq_after
has_path-uniq_after x seen [] = refl
has_path-uniq_after x seen (rel ∷ rels) =
    let ih = has_path-uniq_after x (rel ∷ seen) rels in
    elim (Bool-cases (has_path rel seen)) [
      | inl listed ↦ rw listed (
          uniq_listed (path_eq rel x) (has_path x seen) (has_path x (uniq_after (rel ∷ seen) rels))
            (has_path x rels) (λ e. subst (λ y. has_path y seen ≡ true) (path_eq-eq rel x e) listed)
            ih)
      | inr fresh ↦ rw fresh (
          uniq_fresh (path_eq rel x) (has_path x seen) (has_path x (uniq_after (rel ∷ seen) rels))
            (has_path x rels) ih)
    ]

pub delete_orphan_batch-files :
    (can_remove : MediaPath → Bool) (rels : List MediaPath) (r : Removal)
    → let r' = delete_orphan_batch can_remove rels r in
      (r'.store.db ≡ r.store.db)
      × (r'.store.files ≡ filter (stays can_remove r.store.db.frames rels) r.store.files)
unfolding delete_orphan_batch
delete_orphan_batch-files can_remove rels r =
    let (db, files) = sweep_files-files can_remove (uniq_after [] rels) r in
    let frames = r.store.db.frames in
    (
      db,
      files
          ∙ filter_cong (stays can_remove frames (uniq_after [] rels))
              (stays can_remove frames rels) r.store.files
              (λ x.
                ap (λ listed. keeps can_remove frames x || not listed)
                  (has_path-uniq_after x [] rels)),
    )
