-- ===== src/Indexing/Counts.antt =====
-- Every file of a run that returns is counted once: indexed, skipped, deleted or in error.
use repomesh.Prelude.{
  ℕ, ◌+◌, ◌≡◌, refl, subst, sym, Option, none, some, List, [], ◌∷◌, length, arith, Bool-cases, inl,
  inr, is_some,
}
use repomesh.Coordination.Schema.{Stats}
use repomesh.Chunking.Texts.{Text}
use repomesh.Storage.Files.{FileRow, Index, indexed}
use repomesh.Storage.Repositories.{repository, update_repository}
use repomesh.Indexing.Exec.{Outcome, returns, git_failed, fail, modify, ◌>>=◌}
use repomesh.Indexing.Paths.{dict_keys}
use repomesh.Indexing.Services.{VectorStore, Setup}
use repomesh.Indexing.Indexer.{
  Run, State, ask, on_index, progress, try_file, delete_one, delete_all, index_one, index_all,
  deleted_paths, stats_of, index_paths, find_files, index_found, run_index,
}
use repomesh.Indexing.Ensures.{
  Post, Ensures, Ensures-pure, Ensures-weaken, Ensures-modify, Ensures-get_or_fail, Ensures-bind,
}
use repomesh.Indexing.Frame.{Ensures-ask}
use repomesh.Indexing.Quiet.{Quiet-ask, Quiet-bind, Quiet-on_index, Quiet-progress, Quiet-guarded}
use repomesh.Indexing.Counting.{
  Counted, Has, Quiet-any, Anything, Ensures-tried, Ensures-deleted_one, Ensures-indexed_one,
}

module _ (V : VectorStore) (u : Setup) (total : ℕ) where
  Ensures-deleted_all :
      (n : ℕ) (paths : List Text)
      → Ensures (Has total n) (delete_all V u paths) (λ _. Has total (n + length paths)) Anything
  unfolding delete_all
  Ensures-deleted_all n [] =
      Ensures-pure (Has total n) tt
        (λ s h. record { all_files = h.all_files; sum = omega (arith, h.sum) })
  Ensures-deleted_all n (path ∷ paths) =
      Ensures-bind (Has total n) (λ _. Has total (n + 1))
        (λ _. Has total (n + length (path ∷ paths)))
        (ask >>= (λ _. try_file path (delete_one V u path))) (λ _. delete_all V u paths)
        (Ensures-tried total n path (delete_one V u path) (Ensures-deleted_one V u total n path))
        (λ _.
          Ensures-weaken (Has total (n + 1)) (Has total (n + 1)) Anything
            (λ _. Has total (n + length (path ∷ paths))) (delete_all V u paths) (λ s h. h)
            (λ _ t h. record { all_files = h.all_files; sum = omega (arith, h.sum) }) (λ t h. tt)
            (Ensures-deleted_all (n + 1) paths))

  Ensures-indexed_all :
      (n : ℕ) (manifest : Text → Option FileRow) (deleted paths : List Text)
      → Ensures
          (Has total n)
          (index_all V u manifest deleted paths)
          (λ _. Has total (n + length paths))
          Anything
  unfolding index_all
  Ensures-indexed_all n manifest deleted [] =
      Ensures-pure (Has total n) tt
        (λ s h. record { all_files = h.all_files; sum = omega (arith, h.sum) })
  Ensures-indexed_all n manifest deleted (path ∷ paths) =
      Ensures-bind (Has total n) (λ _. Has total (n + 1))
        (λ _. Has total (n + length (path ∷ paths)))
        (ask >>= (λ _. try_file path (index_one V u manifest deleted path)))
        (λ _. index_all V u manifest deleted paths)
        (Ensures-tried total n path (index_one V u manifest deleted path)
          (Ensures-indexed_one V u total n manifest deleted path))
        (λ _.
          Ensures-weaken (Has total (n + 1)) (Has total (n + 1)) Anything
            (λ _. Has total (n + length (path ∷ paths))) (index_all V u manifest deleted paths)
            (λ s h. h) (λ _ t h. record { all_files = h.all_files; sum = omega (arith, h.sum) })
            (λ t h. tt) (Ensures-indexed_all (n + 1) manifest deleted paths))

  -- The counters of a run from its list of files on.
  Ensures-Counted_paths :
      (files : List Text) (index : Index)
      → total ≡ length files + length (deleted_paths V u (dict_keys files) index)
      → Ensures Anything
          (index_paths V u files index)
          (λ t _.
            Counted total
              (length (deleted_paths V u (dict_keys files) index) + length (dict_keys files))
              t)
          Anything
  unfolding index_paths
  Ensures-Counted_paths files index e =
      let deleted : List Text = deleted_paths V u (dict_keys files) index in
      let d : ℕ = 0 + length deleted in
      let k : ℕ = d + length (dict_keys files) in
      Ensures-bind Anything (λ _. Has total k)
        (λ t _. Counted total (length deleted + length (dict_keys files)) t) _ (λ _. stats_of V u)
        (Ensures-bind Anything (λ _. Has total k) (λ _. Has total k) _ _
          (Ensures-bind Anything (λ _. Has total d) (λ _. Has total k) _ _
            (Ensures-bind Anything (λ _. Has total 0) (λ _. Has total d) _ _
              (Ensures-bind Anything (λ _. Has total 0) (λ _. Has total 0) _ _
                (Ensures-modify Anything (Has total 0) _
                  (λ s h. record { all_files = sym e; sum = refl }))
                (λ _. Quiet-any total 0 0 (progress none none) (Quiet-progress none none)))
              (λ _. Ensures-deleted_all 0 deleted))
            (λ _. Ensures-indexed_all d (index.files u.repository_id) deleted (dict_keys files)))
          (λ _. Quiet-any total k k _ (
            Quiet-guarded
              (ask >>= (λ _.
                modify (on_index (update_repository u.now u.repository_id u.disk.commit indexed))))
              (Quiet-bind ask _ Quiet-ask (λ _.
                Quiet-on_index (update_repository u.now u.repository_id u.disk.commit indexed))))))
        (λ _. record { at = λ s h. record { all_files = h.all_files; sum = omega (arith, h.sum) } })

-- The counters that a run of these files over this index returns: its total is the number of
-- listed files and of paths to delete, and every path to delete and every distinct listed path is
-- counted once.
pub record Accounted (V : VectorStore) (u : Setup) (index : Index) (t : Stats) : Type 0 where
  pub files : List Text
  pub listed : u.disk.files ≡ some files
  pub counts :
      Counted
        (length files + length (deleted_paths V u (dict_keys files) index))
        (length (deleted_paths V u (dict_keys files) index) + length (dict_keys files))
        t

module _ (V : VectorStore) (u : Setup) (index : Index) where
  abbrev At : State V u → Type 0
  At s = s.index ≡ index

  Ensures-asked : Ensures At ask (λ _. At) (Anything {S = State V u})
  Ensures-asked =
      Ensures-weaken At At Anything (λ _. At) ask (λ s h. h) (λ _ t h. h) (λ t h. tt)
        (Ensures-ask (λ i v. i ≡ index))

  Ensures-found :
      Ensures At (find_files V u) (λ files s. (u.disk.files ≡ some files) × At s) Anything
  unfolding find_files
  Ensures-found = record {
    at = λ s h. elim (Bool-cases (is_some (repository u.repository_id s.index))) [
      | inl known ↦ rw known ((Ensures-get_or_fail At u.disk.files git_failed (λ t k. tt)).at s h)
      | inr unknown ↦ rw unknown (unfold fail in tt)
    ];
  }

  run-Accounted :
      Ensures At (run_index V u) (λ t _. Accounted V u index t) (Anything {S = State V u})
  unfolding run_index
  run-Accounted =
      Ensures-bind At (λ files s. (u.disk.files ≡ some files) × At s) (λ t _. Accounted V u index t)
        (ask >>= (λ _. find_files V u)) (index_found V u)
        (Ensures-bind At (λ _. At) (λ files s. (u.disk.files ≡ some files) × At s) ask
          (λ _. find_files V u) Ensures-asked (λ _. Ensures-found))
        (λ files. record {
          at = λ s h.
              (Ensures-weaken Anything Anything Anything (λ t _. Accounted V u index t)
                  (index_paths V u files s.index) (λ t k. k)
                  (λ t _ k.
                    subst (λ i. Accounted V u i t) h.1
                      (record { files = files; listed = h.0; counts = k }))
                  (λ t k. k)
                  (Ensures-Counted_paths V u
                    (length files + length (deleted_paths V u (dict_keys files) s.index)) files
                    s.index refl)).at
                s tt;
        })

Post_returns :
    {S A : Type 0} (Q : A → Type 0) (X : S → Type 0) (o : Outcome A) (s : S) (a : A)
    → o ≡ returns a
    → Post (λ b _. Q b) X o s
    → Q a
Post_returns Q X o s a e h = rw e at h

-- A run that returns has counted every path to delete and every distinct listed path once, as
-- indexed, skipped, deleted or in error, against a total that counts the listed files and the paths
-- to delete.
pub run_index-Accounted :
    (V : VectorStore) (u : Setup) (s : Run V.State) (t : Stats)
    → (run_index V u s).0 ≡ returns t
    → Accounted V u s.index t
run_index-Accounted V u s t e =
    Post_returns (Accounted V u s.index) Anything (run_index V u s).0 (run_index V u s).1 t e
      ((run-Accounted V u s.index).at s refl)
