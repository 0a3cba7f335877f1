-- ===== src/Storage/Lookup.antt =====
-- What the index holds of a file after an operation, and that other files are left alone.
use repomesh.Prelude.{
  ℕ, ◌≡◌, ◌∙◌, sym, refl, ap, Bool, true, false, none, some, List, [], ◌∷◌, ◌++◌, arith, Bool-cases,
  Option-cases, inl, inr, All, length, subst,
}
use repomesh.Chunking.Texts.{Text, same_text}
use repomesh.Chunking.Chunker.{CodeChunk}
use repomesh.Storage.Files.{
  FileRow, Index, same_key, is_of, keep, chunks_of, without, has_id, insert_chunks, set_file,
  set_pending, replace_file_chunks, delete_file,
}

pub same_text_sound : (a b : Text) → same_text a b ≡ true → a ≡ b
unfolding same_text
same_text_sound [] [] h = refl
same_text_sound [] (d ∷ ds) h = absurd (ground arith)
same_text_sound (c ∷ cs) [] h = absurd (ground arith)
same_text_sound (c ∷ cs) (d ∷ ds) h =
    let rest : cs ≡ ds = same_text_sound cs ds (ground arith) in
    let first : c ≡ d = ground arith in ground arith

same_text_refl : (a : Text) → same_text a a ≡ true
unfolding same_text
same_text_refl [] = refl
same_text_refl (c ∷ cs) = ground (arith, same_text_refl cs)

pub same_key_sound : (a b r p : Text) → same_key a b r p ≡ true → (a ≡ r) × (b ≡ p)
unfolding same_key
same_key_sound a b r p h = (same_text_sound a r (ground arith), same_text_sound b p (ground arith))

pub same_key_refl : (r p : Text) → same_key r p r p ≡ true
unfolding same_key
same_key_refl r p = ground (arith, same_text_refl r, same_text_refl p)

keep-append :
    (p : CodeChunk → Bool) (xs ys : List CodeChunk) → keep p (xs ++ ys) ≡ keep p xs ++ keep p ys
unfolding keep
keep-append p [] ys = refl
keep-append p (x ∷ xs) ys = elim (Bool-cases (p x)) [
  | inl t ↦ rw (t, keep-append p xs ys)
  | inr f ↦ rw (f, keep-append p xs ys)
]

pub keep-All :
    (p : CodeChunk → Bool) (xs : List CodeChunk) → All (λ x. p x ≡ true) xs → keep p xs ≡ xs
unfolding keep
keep-All p [] all = refl
keep-All p (x ∷ xs) all = rw (all.0, keep-All p xs all.1)

pub keep_none :
    (p : CodeChunk → Bool) (xs : List CodeChunk) → All (λ x. p x ≡ false) xs → keep p xs ≡ []
unfolding keep
keep_none p [] all = refl
keep_none p (x ∷ xs) all = rw (all.0, keep_none p xs all.1)

keep-without : (r p : Text) (xs : List CodeChunk) → keep (is_of r p) (without r p xs) ≡ []
unfolding keep without
keep-without r p [] = refl
keep-without r p (x ∷ xs) = elim (Bool-cases (is_of r p x)) [
  | inl t ↦ rw (t, keep-without r p xs)
  | inr f ↦ rw (f, f, keep-without r p xs)
]

-- A chunk is of one file only.
apart :
    (r p r' p' : Text) (x : CodeChunk)
    → same_key r' p' r p ≡ false
    → is_of r p x ≡ true
    → is_of r' p' x ≡ false
unfolding is_of
apart r p r' p' x differ h = elim (Bool-cases (is_of r' p' x)) [
  | inr f ↦ f
  | inl t ↦
      let (a, b) = same_key_sound x.repository_id x.file_path r p h in
      let (a', b') = same_key_sound x.repository_id x.file_path r' p' t in
      let same : same_key r' p' r p ≡ true =
        subst (λ z. same_key z p' r p ≡ true) (sym a ∙ a')
          (subst (λ z. same_key r z r p ≡ true) (sym b ∙ b') (same_key_refl r p)) in
      absurd (ground arith)
]

pub All-apart :
    (r p r' p' : Text) (xs : List CodeChunk)
    → same_key r' p' r p ≡ false
    → All (λ x. is_of r p x ≡ true) xs
    → All (λ x. is_of r' p' x ≡ false) xs
All-apart r p r' p' [] differ all = tt
All-apart r p r' p' (x ∷ xs) differ all =
    (apart r p r' p' x differ all.0, All-apart r p r' p' xs differ all.1)

keep-without_other :
    (r p r' p' : Text) (xs : List CodeChunk)
    → same_key r' p' r p ≡ false
    → keep (is_of r' p') (without r p xs) ≡ keep (is_of r' p') xs
unfolding keep without
keep-without_other r p r' p' [] differ = refl
keep-without_other r p r' p' (x ∷ xs) differ = elim (Bool-cases (is_of r p x)) [
  | inl t ↦ rw (t, apart r p r' p' x differ t, keep-without_other r p r' p' xs differ)
  | inr f ↦ elim (Bool-cases (is_of r' p' x)) [
    | inl t ↦ rw (f, t, keep-without_other r p r' p' xs differ)
    | inr g ↦ rw (f, g, keep-without_other r p r' p' xs differ)
  ]
]

append_assoc : (xs ys zs : List CodeChunk) → (xs ++ ys) ++ zs ≡ xs ++ (ys ++ zs)
append_assoc [] ys zs = refl
append_assoc (x ∷ xs) ys zs = ap (λ r. x ∷ r) (append_assoc xs ys zs)

append_nil : (xs : List CodeChunk) → xs ++ [] ≡ xs
append_nil [] = refl
append_nil (x ∷ xs) = ap (λ r. x ∷ r) (append_nil xs)

insert_chunks-append :
    (xs rows new : List CodeChunk) → insert_chunks xs rows ≡ some new → new ≡ rows ++ xs
unfolding insert_chunks
insert_chunks-append [] rows new h =
    let p : rows ≡ new = ground arith in sym p ∙ sym (append_nil rows)
insert_chunks-append (x ∷ xs) rows new h = elim (Bool-cases (has_id x.id rows)) [
  | inl used ↦ absurd (ground arith)
  | inr unused ↦
      insert_chunks-append xs (rows ++ x ∷ []) new (ground arith) ∙ append_assoc rows (x ∷ []) xs
]

-- The index after a file's rows were exchanged: it holds exactly these chunks of the file, its row
-- says so, and every other file is as it was.
pub record Replaced (r p : Text) (synced : Bool) (chunks : List CodeChunk) (old new : Index)
    : Type 0 where
  pub exactly : chunks_of r p new ≡ chunks
  pub row : FileRow
  pub recorded : new.files r p ≡ some row
  pub counted : row.chunk_count ≡ length chunks
  pub flagged : row.vector_synced ≡ synced
  pub others :
      (r' p' : Text) → same_key r' p' r p ≡ false → chunks_of r' p' new ≡ chunks_of r' p' old
  pub other_files : (r' p' : Text) → same_key r' p' r p ≡ false → new.files r' p' ≡ old.files r' p'

-- A replacement that succeeds, of chunks that are all of the file, leaves exactly those chunks of
-- the file, records their number and whether their vectors are in sync, and leaves every other
-- file alone.
pub replace_file_chunks-Replaced :
    (now : ℕ) (r p sha256 commit_sha : Text) (chunks : List CodeChunk) (synced : Bool)
    (old new : Index)
    → All (λ x. is_of r p x ≡ true) chunks
    → replace_file_chunks now r p sha256 commit_sha chunks synced old ≡ some new
    → Replaced r p synced chunks old new
unfolding replace_file_chunks chunks_of set_file
replace_file_chunks-Replaced now r p sha256 commit_sha chunks synced old new own e =
    elim (Option-cases (insert_chunks chunks (without r p old.chunks))) [
      | inl clash ↦ absurd (ground arith)
      | inr (rows, inserted) ↦
          let split : rows ≡ without r p old.chunks ++ chunks =
            insert_chunks-append chunks (without r p old.chunks) rows inserted in
          let row : FileRow = record {
            sha256 = sha256;
            commit_sha = commit_sha;
            chunk_count = length chunks;
            vector_synced = synced;
            indexed_at = now;
          } in
          let made : set_file r p (some row) (record old { chunks = rows }) ≡ new = ground arith in
          subst (Replaced r p synced chunks old) made (record {
            exactly = rw (
              split,
              keep-append (is_of r p) (without r p old.chunks) chunks,
              keep-without r p old.chunks,
              keep-All (is_of r p) chunks own,
            );
            row = row;
            recorded = rw (same_key_refl r p) refl;
            counted = refl;
            flagged = refl;
            others = λ r' p' differ.
                rw
                  (
                    split,
                    keep-append (is_of r' p') (without r p old.chunks) chunks,
                    keep-without_other r p r' p' old.chunks differ,
                    keep_none (is_of r' p') chunks (All-apart r p r' p' chunks differ own),
                  )
                  (append_nil (keep (is_of r' p') old.chunks));
            other_files = λ r' p' differ. rw differ refl;
          })
    ]

-- The index after a file was deleted: no row of the file is left, its vectors are to be deleted,
-- and every other file is as it was.
pub record Deleted (r p : Text) (old new : Index) : Type 0 where
  pub no_chunks : chunks_of r p new ≡ []
  pub no_row : new.files r p ≡ none
  pub to_delete : new.pending r p ≡ true
  pub others :
      (r' p' : Text) → same_key r' p' r p ≡ false → chunks_of r' p' new ≡ chunks_of r' p' old
  pub other_files : (r' p' : Text) → same_key r' p' r p ≡ false → new.files r' p' ≡ old.files r' p'
  pub other_pending :
      (r' p' : Text) → same_key r' p' r p ≡ false → new.pending r' p' ≡ old.pending r' p'

-- A deletion leaves no chunk and no row of the file, notes that its vectors are to be deleted, and
-- leaves every other file alone.
pub delete_file-Deleted : (r p : Text) (index : Index) → Deleted r p index (delete_file r p index)
unfolding delete_file chunks_of set_file set_pending
delete_file-Deleted r p index = record {
  no_chunks = keep-without r p index.chunks;
  no_row = rw (same_key_refl r p) refl;
  to_delete = rw (same_key_refl r p) refl;
  others = λ r' p' differ. keep-without_other r p r' p' index.chunks differ;
  other_files = λ r' p' differ. rw differ refl;
  other_pending = λ r' p' differ. rw differ refl;
}
