-- ===== src/Indexing/Indexer.antt =====
-- indexing.py: RepositoryIndexer.index. Each callback of the caller takes the next of the answers
-- that are given with the run; where they end it goes on.
use repomesh.Prelude.{
  ℕ, ◌+◌, Bool, true, false, not, ◌&&◌, Option, none, some, is_some, List, [], ◌∷◌, ◌++◌, length,
  map, if◌then◌else◌,
}
use repomesh.Coordination.Schema.{Stats}
use repomesh.Coordination.Jobs.{no_stats}
use repomesh.Chunking.Texts.{Text, same_text}
use repomesh.Chunking.Chunker.{CodeChunk, Source, chunk}
use repomesh.Storage.Files.{
  FileRow, Index, indexed, manifest_paths, pending_deletions, replace_file_chunks, delete_file,
  mark_vector_dirty, finish_vector_deletion, update_file_commit,
}
use repomesh.Storage.Repositories.{repository, update_repository}
use repomesh.Indexing.Exec.{
  lease_lost, index_cancelled, Fault, provider_unavailable, os_error, value_error, integrity_error,
  git_failed, Outcome, returns, stops, fails, Exec, pure, fail, get_or_fail, modify, ◌>>=◌, ◌>>◌,
  defer, attempt,
}
use repomesh.Indexing.Paths.{has_path, sorted_set, minus, dict_keys}
use repomesh.Indexing.Services.{
  VectorStore, Reply, done, unavailable, Answer, goes_on, asks_cancel, loses_lease, Setup,
}

-- A call of `progress`.
pub record Report : Type 0 where
  pub stats : Stats
  pub path : Option Text
  pub error : Option Fault

pub record Run (V : Type 0) : Type 0 where
  pub index : Index
  pub vectors : V
  pub answers : List Answer
  pub stats : Stats
  pub reports : List Report

abbrev pub answered : {V : Type 0} → List Answer → Run V → Outcome (Unit {0}) × Run V
answered [] s = (returns tt, s)
answered (goes_on ∷ rest) s = (returns tt, record s { answers = rest })
answered (asks_cancel ∷ rest) s = (stops index_cancelled, record s { answers = rest })
answered (loses_lease ∷ rest) s = (stops lease_lost, record s { answers = rest })

module _ {V : Type 0} where
  -- checkpoint(), check(), and the entry and the exit of guard().
  unfoldable pub ask : Exec (Run V) (Unit {0})
  ask s = answered s.answers s

  unfoldable pub add_report : Option Text → Option Fault → Run V → Run V
  add_report path error s = record s {
    reports = record { stats = s.stats; path = path; error = error } ∷ s.reports;
  }

  -- progress(stats, path, error)
  unfoldable pub progress : Option Text → Option Fault → Exec (Run V) (Unit {0})
  unfolding ask ◌>>=◌ modify add_report
  progress path error = ask >> modify (add_report path error)

  unfoldable pub on_index : (Index → Index) → Run V → Run V
  on_index f s = record s { index = f s.index }

  -- with guard() as check: body
  unfoldable pub guarded : {A : Type 0} → Exec (Run V) A → Exec (Run V) A
  unfolding ask ◌>>=◌ pure
  guarded body = ask >> body >>= λ a. ask >> pure a

  abbrev pub count_deleted : Run V → Run V
  count_deleted s = record s {
    stats = record s.stats { deleted_files = s.stats.deleted_files + 1 };
  }

  abbrev pub count_error : Run V → Run V
  count_error s = record s { stats = record s.stats { error_count = s.stats.error_count + 1 } }

  abbrev pub count_skipped : Run V → Run V
  count_skipped s = record s {
    stats = record s.stats { skipped_files = s.stats.skipped_files + 1 };
  }

  abbrev pub count_indexed : ℕ → Run V → Run V
  count_indexed n s = record s {
    stats = record s.stats {
      indexed_files = s.stats.indexed_files + 1;
      indexed_chunks = s.stats.indexed_chunks + n;
    };
  }

  -- One file's try of either loop, with its except clauses and the report that follows it.
  unfoldable pub try_file : {A : Type 0} → Text → Exec (Run V) A → Exec (Run V) (Unit {0})
  unfolding attempt progress modify ◌>>=◌
  try_file path m =
      attempt m (progress (some path) none)
        (λ f. modify count_error >> progress (some path) (some f))

module _ (V : VectorStore) (u : Setup) where
  abbrev pub State : Type 0
  State = Run V.State

  abbrev pub replied : Reply V.State → State → Outcome (Unit {0}) × State
  replied (done v) s = (returns tt, record s { vectors = v })
  replied (unavailable v) s = (fails provider_unavailable, record s { vectors = v })

  unfoldable pub delete_vectors : Text → Exec State (Unit {0})
  delete_vectors path s = replied (V.delete_file u.repository_id path s.vectors) s

  unfoldable pub upsert_vectors : List CodeChunk → Exec State (Unit {0})
  upsert_vectors chunks s = replied (V.upsert chunks s.vectors) s

  -- The inner try of a deletion, deferred while the vector store is unavailable.
  unfoldable pub delete_points : Text → Exec State (Unit {0})
  unfolding ask delete_vectors modify on_index ◌>>=◌ defer pure
  delete_points path =
      defer
        (ask
          >> delete_vectors path
          >> ask
          >> modify (on_index (finish_vector_deletion u.repository_id path)))
        (pure tt)

  unfoldable pub delete_one : Text → Exec State (Unit {0})
  unfolding guarded ask modify on_index delete_points ◌>>=◌
  delete_one path =
      guarded (ask >> modify (on_index (delete_file u.repository_id path)) >> delete_points path)
      >> modify count_deleted

  unfoldable pub delete_all : List Text → Exec State (Unit {0})
  unfolding ask try_file delete_one ◌>>=◌ pure
  delete_all [] = pure tt
  delete_all (path ∷ paths) = ask >> try_file path (delete_one path) >> delete_all paths

  -- The inner try of an indexed file: whether the vectors are in sync.
  unfoldable pub sync_points : Text → List CodeChunk → Exec State Bool
  unfolding ask delete_vectors upsert_vectors ◌>>=◌ defer pure
  sync_points path chunks =
      defer (ask >> delete_vectors path >> ask >> upsert_vectors chunks >> pure true) (pure false)

  abbrev pub stored : Option Index → State → Outcome (Unit {0}) × State
  stored none s = (fails integrity_error, s)
  stored (some index) s = (returns tt, record s { index = index })

  unfoldable pub store_chunks : Text → Text → List CodeChunk → Bool → Exec State (Unit {0})
  store_chunks path digest chunks synced s =
      stored
        (replace_file_chunks u.now u.repository_id path digest u.disk.commit chunks synced s.index)
        s

  unfoldable pub finish_if : Bool → Text → Exec State (Unit {0})
  unfolding ask modify on_index ◌>>=◌ pure
  finish_if true path = ask >> modify (on_index (finish_vector_deletion u.repository_id path))
  finish_if false path = pure tt

  -- The guarded block of a file that is indexed.
  unfoldable pub write_file : Text → Text → List CodeChunk → Exec State (Unit {0})
  unfolding guarded ask modify on_index sync_points store_chunks finish_if ◌>>=◌
  write_file path digest chunks = guarded (
      ask
      >> modify (on_index (mark_vector_dirty u.repository_id path))
      >> sync_points path chunks
      >>= λ synced. ask >> store_chunks path digest chunks synced >> finish_if synced path)

  unfoldable pub source_of : Text → Text → Source
  source_of path content = record {
    repository_id = u.repository_id;
    commit_sha = u.disk.commit;
    file_path = path;
    content = content;
    embedding_model = u.model;
    embedding_version = u.version;
  }

  abbrev name_or_empty : Option Text → Text
  name_or_empty none = []
  name_or_empty (some t) = t

  -- The text of a chunk that is embedded.
  unfoldable pub embedded_text : CodeChunk → Text
  embedded_text x = x.file_path ++ (10 ∷ (name_or_empty x.symbol_name ++ (10 ∷ x.content)))

  -- zip(chunks, vectors, strict=True)
  unfoldable pub with_vectors : List CodeChunk → List Text → Option (List CodeChunk)
  with_vectors [] [] = some []
  with_vectors [] (v ∷ vs) = none
  with_vectors (x ∷ xs) [] = none
  with_vectors (x ∷ xs) (v ∷ vs) = elim (with_vectors xs vs) [
    | none ↦ none
    | some rest ↦ some (record x { vector_json = some v } ∷ rest)
  ]

  -- embedder.embed(texts) if texts else []
  unfoldable pub embed_texts : List Text → Option (List Text)
  embed_texts [] = some []
  embed_texts (t ∷ ts) = u.embed (t ∷ ts)

  unfoldable pub index_content : Text → Text → Exec State (Unit {0})
  unfolding source_of embedded_text with_vectors embed_texts get_or_fail write_file modify ◌>>=◌
  index_content path digest = get_or_fail (u.disk.content path) os_error >>= λ content.
      get_or_fail
        (embed_texts (map embedded_text (chunk u.tools u.chunker (source_of path content))))
        provider_unavailable
      >>= λ vectors.
          get_or_fail (with_vectors (chunk u.tools u.chunker (source_of path content)) vectors)
            value_error
          >>= λ chunks. write_file path digest chunks >> modify (count_indexed (length chunks))

  unfoldable pub skip_file : Text → Exec State (Unit {0})
  unfolding guarded ask modify on_index ◌>>=◌
  skip_file path =
      guarded (ask >> modify (on_index (update_file_commit u.repository_id path u.disk.commit)))
      >> modify count_skipped

  abbrev unchanged_row : Text → Option FileRow → Bool
  unchanged_row digest none = false
  unchanged_row digest (some row) = same_text row.sha256 digest && row.vector_synced

  -- `manifest` is what file_manifest returned before the loops.
  unfoldable pub is_unchanged : (Text → Option FileRow) → List Text → Text → Text → Bool
  is_unchanged manifest deleted path digest =
      u.incremental && unchanged_row digest (manifest path) && not (has_path path deleted)

  unfoldable pub index_one : (Text → Option FileRow) → List Text → Text → Exec State (Unit {0})
  unfolding get_or_fail is_unchanged skip_file index_content ◌>>=◌
  index_one manifest deleted path = get_or_fail (u.disk.digest path) os_error >>= λ digest.
      if is_unchanged manifest deleted path digest
      then skip_file path
      else index_content path digest

  unfoldable pub index_all : (Text → Option FileRow) → List Text → List Text → Exec State (Unit {0})
  unfolding ask try_file index_one ◌>>=◌ pure
  index_all manifest deleted [] = pure tt
  index_all manifest deleted (path ∷ paths) =
      ask >> try_file path (index_one manifest deleted path) >> index_all manifest deleted paths

  -- sorted((set(manifest) - set(relative_map)) | pending_deletions)
  unfoldable pub deleted_paths : List Text → Index → List Text
  unfolding minus sorted_set
  deleted_paths files index = sorted_set (
      minus (manifest_paths u.repository_id index) files ++ pending_deletions u.repository_id index)

  abbrev pub start_stats : ℕ → State → State
  start_stats n s = record s { stats = record no_stats { total_files = n } }

  abbrev pub stats_of : State → Outcome Stats × State
  stats_of s = (returns s.stats, s)

  -- From the files on: what the loops do with the paths that the index has before them.
  unfoldable pub index_paths : List Text → Index → Exec State Stats
  unfolding deleted_paths dict_keys modify progress delete_all index_all guarded ask on_index ◌>>=◌
  index_paths files index =
      let deleted = deleted_paths (dict_keys files) index in
      modify (start_stats (length files + length deleted))
      >> progress none none
      >> delete_all deleted
      >> index_all (index.files u.repository_id) deleted (dict_keys files)
      >> guarded
          (ask >> modify (on_index (update_repository u.now u.repository_id u.disk.commit indexed)))
      >> stats_of

  unfoldable pub find_files : Exec State (List Text)
  unfolding repository get_or_fail fail
  find_files s =
      if is_some (repository u.repository_id s.index)
      then get_or_fail u.disk.files git_failed s
      else fail value_error s

  abbrev pub index_found : List Text → State → Outcome Stats × State
  index_found files s = index_paths files s.index s

  unfoldable pub run_index : Exec State Stats
  unfolding ask find_files index_paths ◌>>=◌
  run_index = ask >> find_files >>= index_found
