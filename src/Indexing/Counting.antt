-- ===== src/Indexing/Counting.antt =====
-- What the work on one file counts.
use repomesh.Prelude.{
  ℕ, ◌+◌, ◌≡◌, subst, sym, Option, none, some, List, length, map, arith, Bool-cases, inl, inr,
}
use repomesh.Coordination.Schema.{Stats}
use repomesh.Chunking.Texts.{Text}
use repomesh.Chunking.Chunker.{chunk}
use repomesh.Storage.Files.{FileRow, delete_file, update_file_commit}
use repomesh.Indexing.Exec.{
  Outcome, returns, stops, fails, Fault, os_error, provider_unavailable, value_error, Exec,
  get_or_fail, modify, ◌>>=◌,
}
use repomesh.Indexing.Services.{VectorStore, Setup}
use repomesh.Indexing.Indexer.{
  Run, State, ask, on_index, progress, guarded, try_file, count_deleted, count_error, count_skipped,
  count_indexed, delete_points, delete_one, write_file, source_of, embedded_text, with_vectors,
  embed_texts, index_content, skip_file, is_unchanged, index_one,
}
use repomesh.Indexing.Ensures.{
  Post, Ensures, Ensures-weaken, Ensures-modify, Ensures-get_or_fail, Ensures-attempt, Ensures-bind,
}
use repomesh.Indexing.Quiet.{
  Quiet, quiet_rules, Quiet-ask, Quiet-progress, Quiet-guarded, Quiet-delete_points,
  Quiet-write_file,
}

-- What update_progress stores as progress_done.
abbrev pub counted_files : Stats → ℕ
counted_files t = t.indexed_files + t.skipped_files + t.deleted_files + t.error_count

-- The run's total and how many files are counted.
pub record Counted (total n : ℕ) (t : Stats) : Type 0 where
  pub all_files : t.total_files ≡ total
  pub sum : counted_files t ≡ n

module _ {V : Type 0} (total n : ℕ) where
  abbrev pub Has : Run V → Type 0
  Has s = Counted total n s.stats

  quiet-Post :
      {A : Type 0} (o : Outcome A) (s t : Run V)
      → t.stats ≡ s.stats
      → Has s
      → Post (λ _. Has) Has o t
  quiet-Post (returns a) s t e h = subst (Counted total n) (sym e) h
  quiet-Post (stops x) s t e h = subst (Counted total n) (sym e) h
  quiet-Post (fails x) s t e h = subst (Counted total n) (sym e) h

  Quiet-Ensures : {A : Type 0} (m : Exec (Run V) A) → Quiet m → Ensures Has m (λ _. Has) Has
  Quiet-Ensures m q = record { at = λ s h. quiet-Post (m s).0 s (m s).1 (q.at s) h }

abbrev pub Anything : {S : Type 0} → S → Type 0
Anything s = Unit {0}

module _ {V A : Type 0} (total n : ℕ) where
  -- A quiet block and its counter.
  Ensures-counted :
      (m : Exec (Run V) A) (f : Run V → Run V)
      → Quiet m
      → ((s : Run V) → Has total n s → Has total (n + 1) (f s))
      → Ensures (Has total n) (m >>= λ _. modify f) (λ _. Has total (n + 1)) (Has total n)
  Ensures-counted m f q h =
      Ensures-bind (Has total n) (λ _. Has total n) (λ _. Has total (n + 1)) m (λ _. modify f)
        (Quiet-Ensures total n m q) (λ _. Ensures-modify (Has total n) (Has total (n + 1)) f h)

  pub Quiet-any :
      (k : ℕ) (m : Exec (Run V) A) → Quiet m → Ensures (Has total k) m (λ _. Has total k) Anything
  Quiet-any k m q =
      Ensures-weaken (Has total k) (Has total k) Anything (λ _. Has total k) m (λ s h. h)
        (λ _ t h. h) (λ t h. tt) (Quiet-Ensures total k m q)

module _ {V : Type 0} (total n : ℕ) where
  -- A try counts its file, in its own counter or as an error.
  pub Ensures-tried :
      {A : Type 0} (path : Text) (m : Exec (Run V) A)
      → Ensures (Has total n) m (λ _. Has total (n + 1)) (Has total n)
      → Ensures (Has total n) (ask >>= λ _. try_file path m) (λ _. Has total (n + 1)) Anything
  unfolding try_file
  Ensures-tried path m e =
      Ensures-bind (Has total n) (λ _. Has total n) (λ _. Has total (n + 1)) ask
        (λ _. try_file path m) (Quiet-any total n n ask Quiet-ask)
        (λ _.
          Ensures-attempt (Has total n) (λ _. Has total (n + 1)) (Has total (n + 1)) m
            (progress (some path) none)
            (λ f. modify count_error >>= λ _. progress (some path) (some f)) e
            (λ a.
              Quiet-any total n (n + 1) (progress (some path) none)
                (Quiet-progress (some path) none))
            (λ f.
              Ensures-bind (Has total n) (λ _. Has total (n + 1)) (λ _. Has total (n + 1))
                (modify count_error) (λ _. progress (some path) (some f))
                (Ensures-modify (Has total n) (Has total (n + 1)) count_error
                  (λ s h. record { all_files = h.all_files; sum = omega (arith, h.sum) }))
                (λ _.
                  Quiet-any total n (n + 1) (progress (some path) (some f))
                    (Quiet-progress (some path) (some f))))
            (λ t h. tt))

module _ (V : VectorStore) (u : Setup) (total : ℕ) where
  pub Ensures-deleted_one :
      (n : ℕ) (path : Text)
      → Ensures (Has total n) (delete_one V u path) (λ _. Has total (n + 1)) (Has total n)
  unfolding delete_one
  Ensures-deleted_one n path =
      Ensures-counted total n
        (guarded (
          ask
          >>= (λ _. modify (on_index (delete_file u.repository_id path)))
          >>= (λ _. delete_points V u path)))
        count_deleted (Quiet-guarded _ (search (quiet_rules, Quiet-delete_points)))
        (λ s h. record { all_files = h.all_files; sum = omega (arith, h.sum) })

  Ensures-skipped :
      (n : ℕ) (path : Text)
      → Ensures (Has total n) (skip_file V u path) (λ _. Has total (n + 1)) (Has total n)
  unfolding skip_file
  Ensures-skipped n path =
      Ensures-counted total n
        (guarded (
          ask >>= (λ _. modify (on_index (update_file_commit u.repository_id path u.disk.commit)))))
        count_skipped (Quiet-guarded _ (search quiet_rules))
        (λ s h. record { all_files = h.all_files; sum = omega (arith, h.sum) })

  -- A value that is there or fails, before more code.
  got :
      {A B : Type 0} (n : ℕ) (o : Option A) (f : Fault) (k : A → Exec (State V u) B)
      → ((a : A) → Ensures (Has total n) (k a) (λ _. Has total (n + 1)) (Has total n))
      → Ensures (Has total n) (get_or_fail o f >>= k) (λ _. Has total (n + 1)) (Has total n)
  got n o f k e =
      Ensures-bind (Has total n) (λ a s. (o ≡ some a) × Has total n s) (λ _. Has total (n + 1))
        (get_or_fail o f) k (Ensures-get_or_fail (Has total n) o f (λ s h. h))
        (λ a.
          Ensures-weaken (Has total n) (λ s. (o ≡ some a) × Has total n s) (Has total n)
            (λ _. Has total (n + 1)) (k a) (λ s h. h.1) (λ _ t h. h) (λ t h. h) (e a))

  Ensures-indexed :
      (n : ℕ) (path digest : Text)
      → Ensures (Has total n) (index_content V u path digest) (λ _. Has total (n + 1)) (Has total n)
  unfolding index_content
  Ensures-indexed n path digest = got n (u.disk.content path) os_error _ (λ content.
      got n
        (embed_texts V u
          (map (embedded_text V u) (chunk u.tools u.chunker (source_of V u path content))))
        provider_unavailable _
        (λ vectors.
          got n (with_vectors V u (chunk u.tools u.chunker (source_of V u path content)) vectors)
            value_error _
            (λ chunks.
              Ensures-counted total n (write_file V u path digest chunks)
                (count_indexed (length chunks)) (Quiet-write_file V u path digest chunks)
                (λ s h. record { all_files = h.all_files; sum = omega (arith, h.sum) }))))

  pub Ensures-indexed_one :
      (n : ℕ) (manifest : Text → Option FileRow) (deleted : List Text) (path : Text)
      → Ensures
          (Has total n)
          (index_one V u manifest deleted path)
          (λ _. Has total (n + 1))
          (Has total n)
  unfolding index_one
  Ensures-indexed_one n manifest deleted path = got n (u.disk.digest path) os_error _ (λ digest.
      elim (Bool-cases (is_unchanged V u manifest deleted path digest)) [
        | inl same ↦ rw same (Ensures-skipped n path)
        | inr new ↦ rw new (Ensures-indexed n path digest)
      ])
