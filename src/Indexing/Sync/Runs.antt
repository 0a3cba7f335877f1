-- ===== src/Indexing/Sync/Runs.antt =====
-- A whole run keeps the marks, wherever it stops.
use repomesh.Prelude.{
  ◌≡◌, subst, true, Option, none, some, List, [], ◌∷◌, map, arith, length, Bool-cases, Option-cases,
  inl, inr, All, is_some,
}
use repomesh.Chunking.Texts.{Text, with_slashes}
use repomesh.Chunking.Chunker.{CodeChunk, chunk}
use repomesh.Storage.Files.{FileRow, Index, indexed, is_of}
use repomesh.Storage.Repositories.{repository, update_repository}
use repomesh.Storage.Chunks.{chunk_rows}
use repomesh.Indexing.Exec.{
  Outcome, returns, stops, fails, provider_unavailable, os_error, value_error, git_failed, fail,
  get_or_fail, modify, ◌>>=◌,
}
use repomesh.Indexing.Paths.{has_path, minus, dict_keys}
use repomesh.Indexing.Services.{VectorStore, IsLawful, Setup}
use repomesh.Indexing.Indexer.{
  Run, ask, on_index, try_file, count_indexed, delete_one, delete_all, write_file, source_of,
  embedded_text, with_vectors, embed_texts, index_content, is_unchanged, index_one, index_all,
  deleted_paths, stats_of, index_paths, find_files, index_found, run_index,
}
use repomesh.Indexing.Ensures.{
  Post, Ensures, Ensures-pure, Ensures-weaken, Ensures-modify, Ensures-get_or_fail, Ensures-bind,
}
use repomesh.Indexing.Frame.{On, Ensures-progress, Ensures-try_file, Ensures-guarded}
use repomesh.Indexing.Sync.{Synced}
use repomesh.Indexing.Sync.Steps.{update_repository-Synced}
use repomesh.Indexing.Sync.Blocks.{
  Ensures-ask_then, Ensures-write_file, Ensures-delete_one, Ensures-skip_file,
}

module _ (V : VectorStore) (u : Setup) (P : CodeChunk → Type 0)
    (stable : (x : CodeChunk) (v : Text) → P x → P (record x { vector_json = some v })) where
  pub All-with_vectors :
      (xs ys : List CodeChunk) (vs : List Text)
      → with_vectors V u xs vs ≡ some ys
      → All P xs
      → All P ys
  unfolding with_vectors
  All-with_vectors [] ys [] e all = let p : [] ≡ ys = ground arith in subst (All P) p tt
  All-with_vectors [] ys (v ∷ vs) e all = absurd (ground arith)
  All-with_vectors (x ∷ xs) ys [] e all = absurd (ground arith)
  All-with_vectors (x ∷ xs) ys (v ∷ vs) e all = elim (Option-cases (with_vectors V u xs vs)) [
    | inl short ↦ absurd (ground arith)
    | inr (rest, zipped) ↦
        let p : (record x { vector_json = some v } ∷ rest) ≡ ys = ground arith in
        subst (All P) p (stable x v all.0, All-with_vectors xs rest vs zipped all.1)
  ]

-- The id of a chunk names the file from which it is.
abbrev pub Names : (V : VectorStore) (home : Text → Text × Text) → Setup → Type 0
Names V home u =
    (path content : Text)
    → u.disk.content path ≡ some content
    → All (λ x. home x.id ≡ (u.repository_id, path))
        (chunk u.tools u.chunker (source_of V u path content))

module _ (V : VectorStore) (home : Text → Text × Text) (u : Setup) (lawful : IsLawful V)
    (names : Names V home u) where
  abbrev Marked : Run V.State → Type 0
  Marked = On (Synced V home)

  abbrev found_chunks : Text → Text → List CodeChunk
  found_chunks path content = chunk u.tools u.chunker (source_of V u path content)

  vectored_rows :
      (path content : Text) (vectors : List Text) (chunks : List CodeChunk)
      → with_slashes path ≡ path
      → with_vectors V u (found_chunks path content) vectors ≡ some chunks
      → All (λ x. is_of u.repository_id path x ≡ true) chunks
  unfolding source_of is_of
  vectored_rows path content vectors chunks slashes e =
      All-with_vectors V u (λ x. is_of u.repository_id path x ≡ true) (λ x v h. h)
        (found_chunks path content) chunks vectors e
        (subst (λ p. All (λ x. is_of u.repository_id p x ≡ true) (found_chunks path content))
          slashes (chunk_rows u.tools u.chunker (source_of V u path content)))

  named_rows :
      (path content : Text) (vectors : List Text) (chunks : List CodeChunk)
      → u.disk.content path ≡ some content
      → with_vectors V u (found_chunks path content) vectors ≡ some chunks
      → All (λ x. home x.id ≡ (u.repository_id, path)) chunks
  named_rows path content vectors chunks read e =
      All-with_vectors V u (λ x. home x.id ≡ (u.repository_id, path)) (λ x v h. h)
        (found_chunks path content) chunks vectors e (names path content read)

  Ensures-index_content :
      (path digest : Text)
      → with_slashes path ≡ path
      → Ensures Marked (index_content V u path digest) (λ _. Marked) Marked
  unfolding index_content
  Ensures-index_content path digest slashes =
      Ensures-bind Marked (λ content s. (u.disk.content path ≡ some content) × Marked s)
        (λ _. Marked) (get_or_fail (u.disk.content path) os_error) _
        (Ensures-get_or_fail Marked (u.disk.content path) os_error (λ s h. h))
        (λ content. record {
          at = λ s₀ read.
              (Ensures-bind Marked
                  (λ vectors s.
                    (embed_texts V u (map (embedded_text V u) (found_chunks path content))
                      ≡ some vectors)
                    × Marked s)
                  (λ _. Marked)
                  (get_or_fail
                    (embed_texts V u (map (embedded_text V u) (found_chunks path content)))
                    provider_unavailable)
                  _
                  (Ensures-get_or_fail Marked
                    (embed_texts V u (map (embedded_text V u) (found_chunks path content)))
                    provider_unavailable (λ s h. h))
                  (λ vectors.
                    Ensures-weaken Marked _ Marked (λ _. Marked) _ (λ s h. h.1) (λ _ t h. h)
                      (λ t h. h)
                      (Ensures-bind Marked
                        (λ chunks s.
                          (with_vectors V u (found_chunks path content) vectors ≡ some chunks)
                          × Marked s)
                        (λ _. Marked)
                        (get_or_fail (with_vectors V u (found_chunks path content) vectors)
                          value_error)
                        _
                        (Ensures-get_or_fail Marked
                          (with_vectors V u (found_chunks path content) vectors) value_error
                          (λ s h. h))
                        (λ chunks. record {
                          at = λ s h.
                              (Ensures-bind Marked (λ _. Marked) (λ _. Marked)
                                  (write_file V u path digest chunks)
                                  (λ _. modify (count_indexed (length chunks)))
                                  (Ensures-write_file V home u lawful path chunks
                                    (vectored_rows path content vectors chunks slashes h.0)
                                    (named_rows path content vectors chunks read.0 h.0) digest)
                                  (λ _.
                                    Ensures-modify Marked Marked (count_indexed (length chunks))
                                      (λ t k. k))).at
                                s h.1;
                        })))).at
                s₀ read.1;
        })

  Ensures-index_one :
      (manifest : Text → Option FileRow) (deleted : List Text) (path : Text)
      → with_slashes path ≡ path
      → Ensures Marked (index_one V u manifest deleted path) (λ _. Marked) Marked
  unfolding index_one
  Ensures-index_one manifest deleted path slashes =
      Ensures-bind Marked (λ digest s. (u.disk.digest path ≡ some digest) × Marked s) (λ _. Marked)
        (get_or_fail (u.disk.digest path) os_error) _
        (Ensures-get_or_fail Marked (u.disk.digest path) os_error (λ s h. h))
        (λ digest.
          Ensures-weaken Marked _ Marked (λ _. Marked) _ (λ s h. h.1) (λ _ t h. h) (λ t h. h)
            (elim (Bool-cases (is_unchanged V u manifest deleted path digest)) [
              | inl same ↦ rw same (Ensures-skip_file V home u lawful path)
              | inr new ↦ rw new (Ensures-index_content path digest slashes)
            ]))

  Ensures-index_all :
      (manifest : Text → Option FileRow) (deleted paths : List Text)
      → All (λ p. with_slashes p ≡ p) paths
      → Ensures Marked (index_all V u manifest deleted paths) (λ _. Marked) Marked
  unfolding index_all
  Ensures-index_all manifest deleted [] all = Ensures-pure Marked tt (λ s h. h)
  Ensures-index_all manifest deleted (path ∷ paths) all =
      Ensures-bind Marked (λ _. Marked) (λ _. Marked)
        (ask >>= (λ _. try_file path (index_one V u manifest deleted path)))
        (λ _. index_all V u manifest deleted paths)
        (Ensures-ask_then (Synced V home) (Synced V home) (λ _. Marked)
          (try_file path (index_one V u manifest deleted path)) (λ i v h. h)
          (Ensures-try_file (Synced V home) path (index_one V u manifest deleted path)
            (Ensures-index_one manifest deleted path all.0)))
        (λ _. Ensures-index_all manifest deleted paths all.1)

  Ensures-delete_all :
      (paths : List Text) → Ensures Marked (delete_all V u paths) (λ _. Marked) Marked
  unfolding delete_all
  Ensures-delete_all [] = Ensures-pure Marked tt (λ s h. h)
  Ensures-delete_all (path ∷ paths) =
      Ensures-bind Marked (λ _. Marked) (λ _. Marked)
        (ask >>= (λ _. try_file path (delete_one V u path))) (λ _. delete_all V u paths)
        (Ensures-ask_then (Synced V home) (Synced V home) (λ _. Marked)
          (try_file path (delete_one V u path)) (λ i v h. h)
          (Ensures-try_file (Synced V home) path (delete_one V u path)
            (Ensures-delete_one V home u lawful path)))
        (λ _. Ensures-delete_all paths)

  All-minus : (P : Text → Type 0) (xs ys : List Text) → All P xs → All P (minus xs ys)
  unfolding minus
  All-minus P [] ys all = tt
  All-minus P (x ∷ xs) ys all = elim (Bool-cases (has_path x ys)) [
    | inl there ↦ rw there (All-minus P xs ys all.1)
    | inr gone ↦ rw gone (all.0, All-minus P xs ys all.1)
  ]

  All-dict_keys : (P : Text → Type 0) (xs : List Text) → All P xs → All P (dict_keys xs)
  unfolding dict_keys
  All-dict_keys P [] all = tt
  All-dict_keys P (x ∷ xs) all =
      (all.0, All-minus P (dict_keys xs) (x ∷ []) (All-dict_keys P xs all.1))

  Ensures-index_paths :
      (files : List Text) (index : Index)
      → All (λ p. with_slashes p ≡ p) files
      → Ensures Marked (index_paths V u files index) (λ _. Marked) Marked
  unfolding index_paths on_index
  Ensures-index_paths files index all =
      Ensures-bind Marked (λ _. Marked) (λ _. Marked) _ (λ _. stats_of V u)
        (Ensures-bind Marked (λ _. Marked) (λ _. Marked) _ _
          (Ensures-bind Marked (λ _. Marked) (λ _. Marked) _ _
            (Ensures-bind Marked (λ _. Marked) (λ _. Marked) _ _
              (Ensures-bind Marked (λ _. Marked) (λ _. Marked) _ _
                (Ensures-modify Marked Marked _ (λ s h. h))
                (λ _. Ensures-progress (Synced V home) none none))
              (λ _. Ensures-delete_all (deleted_paths V u (dict_keys files) index)))
            (λ _.
              Ensures-index_all (index.files u.repository_id)
                (deleted_paths V u (dict_keys files) index) (dict_keys files)
                (All-dict_keys (λ p. with_slashes p ≡ p) files all)))
          (λ _.
            Ensures-guarded (Synced V home) (Synced V home) (λ i v h. h) _
              (Ensures-ask_then (Synced V home) (Synced V home) (λ _. Marked)
                (modify (on_index (update_repository u.now u.repository_id u.disk.commit indexed)))
                (λ i v h. h)
                (Ensures-modify Marked Marked
                  (on_index (update_repository u.now u.repository_id u.disk.commit indexed))
                  (λ s h.
                    update_repository-Synced V home u.now u.repository_id u.disk.commit indexed
                      s.index s.vectors h)))))
        (λ _. record { at = λ s h. h })

  Ensures-find_files :
      Ensures Marked (find_files V u) (λ files s. (u.disk.files ≡ some files) × Marked s) Marked
  unfolding find_files
  Ensures-find_files = record {
    at = λ s h. elim (Bool-cases (is_some (repository u.repository_id s.index))) [
      | inl known ↦
          rw known ((Ensures-get_or_fail Marked u.disk.files git_failed (λ t k. k)).at s h)
      | inr unknown ↦ rw unknown (unfold fail in h)
    ];
  }

  -- For a lawful vector store and paths without backslashes, a run keeps the marks: where it
  -- returns and wherever an exception ends it.
  run_index-Marked :
      ((files : List Text) → u.disk.files ≡ some files → All (λ p. with_slashes p ≡ p) files)
      → Ensures Marked (run_index V u) (λ _. Marked) Marked
  unfolding run_index
  run_index-Marked slashes =
      Ensures-bind Marked (λ files s. (u.disk.files ≡ some files) × Marked s) (λ _. Marked)
        (ask >>= (λ _. find_files V u)) (index_found V u)
        (Ensures-ask_then (Synced V home) (Synced V home)
          (λ files s. (u.disk.files ≡ some files) × Marked s) (find_files V u) (λ i v h. h)
          Ensures-find_files)
        (λ files. record {
          at = λ s h. (Ensures-index_paths files s.index (slashes files h.0)).at s h.1;
        })

Post_either : {S A : Type 0} (X : S → Type 0) (o : Outcome A) (s : S) → Post (λ _. X) X o s → X s
Post_either X (returns a) s h = h
Post_either X (stops x) s h = h
Post_either X (fails f) s h = h

-- For a vector store that has one point for an id, ids that name the files of their chunks, and paths
-- without backslashes: if the vector store holds the chunks of every file that the index marks as
-- synced and no other of the file's ids, it does so after a run, whatever the callbacks, the embedder
-- and the store answer and wherever an exception ends the run.
pub run_index-Synced :
    (V : VectorStore) (home : Text → Text × Text) (u : Setup) (s : Run V.State)
    → IsLawful V
    → Names V home u
    → ((files : List Text) → u.disk.files ≡ some files → All (λ p. with_slashes p ≡ p) files)
    → Synced V home s.index s.vectors
    → Synced V home (run_index V u s).1.index (run_index V u s).1.vectors
run_index-Synced V home u s lawful names slashes h =
    Post_either (On (Synced V home)) (run_index V u s).0 (run_index V u s).1
      ((run_index-Marked V home u lawful names slashes).at s h)
