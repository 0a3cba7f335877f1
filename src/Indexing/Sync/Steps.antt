-- ===== src/Indexing/Sync/Steps.antt =====
-- What each step of the index and of the vector store does to the marks.
use repomesh.Prelude.{
  ℕ, ◌≡◌, ◌∙◌, sym, refl, ap, subst, Bool, true, false, Option, some, List, [], ◌∷◌, map, arith,
  Bool-cases, Option-cases, inl, inr, All,
}
use repomesh.Chunking.Texts.{Text}
use repomesh.Chunking.Chunker.{CodeChunk}
use repomesh.Storage.Files.{
  FileRow, Index, RepositoryStatus, same_key, is_of, keep, chunks_of, set_file, set_pending,
  replace_file_chunks, delete_file, dirty, mark_vector_dirty, finish_vector_deletion, advance,
  update_file_commit,
}
use repomesh.Storage.Repositories.{update_repository}
use repomesh.Storage.Lookup.{
  same_key_sound, same_key_refl, Replaced, replace_file_chunks-Replaced, Deleted,
  delete_file-Deleted,
}
use repomesh.Indexing.Services.{VectorStore, id_of}
use repomesh.Indexing.Paths.{has_path}
use repomesh.Indexing.Sync.{Holds, Synced, Between}

module _ (V : VectorStore) (home : Text → Text × Text) (r p : Text) where
  -- A step that touches one file: the marks of the others and their chunks stay.
  record Local (old new : Index) : Type 0 where
    files : (r' p' : Text) → same_key r' p' r p ≡ false → new.files r' p' ≡ old.files r' p'
    chunks : (r' p' : Text) → same_key r' p' r p ≡ false → chunks_of r' p' new ≡ chunks_of r' p' old

  Local-Synced :
      (old new : Index) (v w : V.State)
      → Local old new
      → ((r' p' id : Text)
          → same_key r' p' r p ≡ false
          → home id ≡ (r', p')
          → V.holds w r' p' id ≡ V.holds v r' p' id)
      → Synced V home old v
      → ((row : FileRow)
          → new.files r p ≡ some row
          → row.vector_synced ≡ true
          → Holds V home r p (chunks_of r p new) w)
      → Synced V home new w
  Local-Synced old new v w l same h own r' p' row at marked =
      elim (Bool-cases (same_key r' p' r p)) [
        | inr other ↦ λ id k.
            same r' p' id other k
            ∙ h r' p' row (sym (l.files r' p' other) ∙ at) marked id k
            ∙ ap (λ xs. has_path id (map id_of xs)) (sym (l.chunks r' p' other))
        | inl here ↦
            let (e, f) = same_key_sound r' p' r p here in
            subst (λ z. Holds V home z p' (chunks_of z p' new) w) (sym e)
              (subst (λ z. Holds V home r z (chunks_of r z new) w) (sym f)
                (own row
                  (subst (λ z. new.files r z ≡ some row) f
                    (subst (λ z. new.files z p' ≡ some row) e at))
                  marked))
      ]

  Local-delete_file : (index : Index) → Local index (delete_file r p index)
  Local-delete_file index =
      let d : Deleted r p index (delete_file r p index) = delete_file-Deleted r p index in
      record { files = d.other_files; chunks = d.others }

  -- A deleted file has no mark.
  pub delete_file-Between :
      (index : Index) (v : V.State)
      → Synced V home index v
      → Between V home r p (delete_file r p index) v
  delete_file-Between index v h =
      let d : Deleted r p index (delete_file r p index) = delete_file-Deleted r p index in
      record {
        synced =
            Local-Synced index (delete_file r p index) v v (Local-delete_file index)
              (λ r' p' id other k. refl) h (λ row at marked. absurd (ground (arith, d.no_row)));
        dirty = λ row at. absurd (ground (arith, d.no_row));
      }

  Local-set_file : (row : Option FileRow) (index : Index) → Local index (set_file r p row index)
  unfolding set_file chunks_of
  Local-set_file row index = record {
    files = λ r' p' other. rw other refl;
    chunks = λ r' p' other. refl;
  }

  marked_file :
      (index : Index) (row : FileRow)
      → (mark_vector_dirty r p index).files r p ≡ some row
      → row.vector_synced ≡ false
  unfolding mark_vector_dirty set_file
  marked_file index row at = elim (Option-cases (index.files r p)) [
    | inl gone ↦ absurd (ground (arith, same_key_refl r p))
    | inr (old, there) ↦ ground (arith, same_key_refl r p)
  ]

  pub mark_vector_dirty-Between :
      (index : Index) (v : V.State)
      → Synced V home index v
      → Between V home r p (mark_vector_dirty r p index) v
  mark_vector_dirty-Between index v h =
      let l : Local index (mark_vector_dirty r p index) =
        unfold mark_vector_dirty in Local-set_file (dirty (index.files r p)) index in
      record {
        synced =
            Local-Synced index (mark_vector_dirty r p index) v v l (λ r' p' id other k. refl) h
              (λ row at marked. absurd (ground (arith, marked_file index row at)));
        dirty = marked_file index;
      }

  pub finish_vector_deletion-Between :
      (index : Index) (v : V.State)
      → Between V home r p index v
      → Between V home r p (finish_vector_deletion r p index) v
  unfolding finish_vector_deletion set_pending chunks_of
  finish_vector_deletion-Between index v h = record { synced = h.synced; dirty = h.dirty }

  pub finish_vector_deletion-Synced :
      (index : Index) (v : V.State)
      → Synced V home index v
      → Synced V home (finish_vector_deletion r p index) v
  unfolding finish_vector_deletion set_pending chunks_of
  finish_vector_deletion-Synced index v h = h

  Local-refl : (index : Index) → Local index index
  Local-refl index = record { files = λ r' p' o. refl; chunks = λ r' p' o. refl }

  -- A change of the points of a file that is not marked.
  pub vectors-Between :
      (index : Index) (v w : V.State)
      → ((r' p' id : Text)
          → same_key r' p' r p ≡ false
          → home id ≡ (r', p')
          → V.holds w r' p' id ≡ V.holds v r' p' id)
      → Between V home r p index v
      → Between V home r p index w
  vectors-Between index v w same h = record {
    synced =
        Local-Synced index index v w (Local-refl index) same h.synced
          (λ row at marked. absurd (ground (arith, h.dirty row at)));
    dirty = h.dirty;
  }

  -- The file's points are those of the chunks, if they are said to be in sync.
  abbrev pub Uploaded : Bool → List CodeChunk → V.State → Type 0
  Uploaded synced chunks v = synced ≡ true → Holds V home r p chunks v

  pub replace_file_chunks-Synced :
      (now : ℕ) (sha256 commit_sha : Text) (chunks : List CodeChunk) (synced : Bool)
      (old new : Index) (v : V.State)
      → All (λ x. is_of r p x ≡ true) chunks
      → replace_file_chunks now r p sha256 commit_sha chunks synced old ≡ some new
      → Synced V home old v
      → Uploaded synced chunks v
      → Synced V home new v
  replace_file_chunks-Synced now sha256 commit_sha chunks synced old new v own e h up =
      let d : Replaced r p synced chunks old new =
        replace_file_chunks-Replaced now r p sha256 commit_sha chunks synced old new own e in
      Local-Synced old new v v (record { files = d.other_files; chunks = d.others })
        (λ r' p' id other k. refl) h
        (λ row at marked id k.
          up (ground (arith, d.recorded, d.flagged)) id k
          ∙ ap (λ xs. has_path id (map id_of xs)) (sym d.exactly))

  advance_ids :
      (commit_sha r' p' : Text) (xs : List CodeChunk)
      → map id_of (keep (is_of r' p') (advance r p commit_sha xs))
        ≡ map id_of (keep (is_of r' p') xs)
  unfolding keep advance is_of
  advance_ids commit_sha r' p' [] = refl
  advance_ids commit_sha r' p' (x ∷ xs) = elim (Bool-cases (is_of r p x)) [
    | inl here ↦ elim (Bool-cases (is_of r' p' x)) [
      | inl t ↦ rw (here, t) (ap (λ l. x.id ∷ l) (advance_ids commit_sha r' p' xs))
      | inr f ↦ rw (here, f) (advance_ids commit_sha r' p' xs)
    ]
    | inr other ↦ elim (Bool-cases (is_of r' p' x)) [
      | inl t ↦ rw (other, t) (ap (λ l. x.id ∷ l) (advance_ids commit_sha r' p' xs))
      | inr f ↦ rw (other, f) (advance_ids commit_sha r' p' xs)
    ]
  ]

  committed_row :
      (commit_sha r' p' : Text) (index : Index) (row : FileRow)
      → (update_file_commit r p commit_sha index).files r' p' ≡ some row
      → (old : FileRow) × (index.files r' p' ≡ some old) × (old.vector_synced ≡ row.vector_synced)
  unfolding update_file_commit set_file
  committed_row commit_sha r' p' index row at = elim (Bool-cases (same_key r' p' r p)) [
    | inr other ↦ (row, ground arith, refl)
    | inl here ↦
        let (e, f) = same_key_sound r' p' r p here in
        elim (Option-cases (index.files r p)) [
          | inl gone ↦ absurd (ground arith)
          | inr (old, there) ↦ (old, rw (e, f) there, ground arith)
        ]
  ]

  pub update_file_commit-Synced :
      (commit_sha : Text) (index : Index) (v : V.State)
      → Synced V home index v
      → Synced V home (update_file_commit r p commit_sha index) v
  unfolding update_file_commit set_file chunks_of
  update_file_commit-Synced commit_sha index v h r' p' row at marked id k =
      let (old, there, same) = committed_row commit_sha r' p' index row at in
      h r' p' old there (same ∙ marked) id k
      ∙ ap (has_path id) (sym (advance_ids commit_sha r' p' index.chunks))

pub update_repository-Synced :
    (V : VectorStore) (home : Text → Text × Text) (now : ℕ) (id commit_sha : Text)
    (status : RepositoryStatus) (index : Index) (v : V.State)
    → Synced V home index v
    → Synced V home (update_repository now id commit_sha status index) v
unfolding update_repository chunks_of
update_repository-Synced V home now id commit_sha status index v h = h
