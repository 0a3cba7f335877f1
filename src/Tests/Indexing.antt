-- ===== src/Tests/Indexing.antt =====
-- A run over one file, with a vector store in memory.
use repomesh.Indexing.Paths.{has_path}
use repomesh.Prelude.{
  ◌≡◌, refl, sym, ap, false, none, some, List, [], ◌∷◌, map, arith, if◌then◌else◌, Bool, true,
  Option, inl, inr, Bool-cases, ◌∙◌, ◌||◌, All,
}
use repomesh.Coordination.Schema.{Stats}
use repomesh.Chunking.Texts.{Text, with_slashes, suffix, decimal, split_lines, same_text}
use repomesh.Chunking.Chunker.{fallback_chunks, chunk, CodeChunk}
use repomesh.Storage.Files.{
  registered, same_key, is_of, replace_file_chunks, manifest_paths, pending_deletions,
  mark_vector_dirty,
}
use repomesh.Storage.Repositories.{repository, update_repository}
use repomesh.Storage.Lookup.{same_key_refl, same_text_sound, same_key_sound}
use repomesh.Indexing.Exec.{returns}
use repomesh.Indexing.Services.{VectorStore, IsLawful, done, left_by, Setup, id_of}
use repomesh.Indexing.Indexer.{Run, run_index, source_of}
use repomesh.Indexing.Sync.{Synced}
use repomesh.Indexing.Sync.Runs.{run_index-Synced, Names}
use repomesh.Indexing.Counts.{Accounted, run_index-Accounted}
use repomesh.Tests.Chunking.{tools, chunker, file}

-- The payload under each id.
abbrev Points : Type 0
Points = Text → Option (Text × Text)

abbrev drop_of : Text → Text → Option (Text × Text) → Option (Text × Text)
drop_of r p none = none
drop_of r p (some (a, b)) = if same_key a b r p then none else some (a, b)

abbrev put_one : CodeChunk → Points → Points
put_one x s id = if same_text x.id id then some (x.repository_id, x.file_path) else s id

unfoldable put_all : List CodeChunk → Points → Points
put_all [] s = s
put_all (x ∷ xs) s = put_all xs (put_one x s)

abbrev names : Text → Text → Option (Text × Text) → Bool
names r p none = false
names r p (some (a, b)) = same_key a b r p

abbrev memory : VectorStore
memory = record {
  State = Points;
  delete_file = λ r p s. done (λ id. drop_of r p (s id));
  upsert = λ chunks s. done (put_all chunks s);
  holds = λ s r p id. names r p (s id);
}

Reply-done : {S : Type 0} (s t : S) → done s ≡ done t → s ≡ t
Reply-done s t e = ap left_by e

dropped : (r p : Text) (o : Option (Text × Text)) → names r p (drop_of r p o) ≡ false
dropped r p none = refl
dropped r p (some (a, b)) = elim (Bool-cases (same_key a b r p)) [
  | inl same ↦ rw same refl
  | inr other ↦ rw (other, other) refl
]

kept :
    (r p r' p' : Text) (o : Option (Text × Text))
    → same_key r' p' r p ≡ false
    → names r' p' (drop_of r p o) ≡ names r' p' o
kept r p r' p' none other = refl
kept r p r' p' (some (a, b)) other = elim (Bool-cases (same_key a b r p)) [
  | inr stays ↦ rw stays refl
  | inl goes ↦ elim (Bool-cases (same_key a b r' p')) [
    | inr unnamed ↦ rw (goes, unnamed) refl
    | inl named ↦
        let (c, d) = same_key_sound a b r p goes in
        let (c', d') = same_key_sound a b r' p' named in
        absurd (
          let z : false ≡ true =
            sym other
            ∙ ap (λ t. same_key t p' r p) (sym c' ∙ c)
            ∙ ap (λ t. same_key r t r p) (sym d' ∙ d)
            ∙ same_key_refl r p in
          ground arith)
  ]
]

or_true : (b : Bool) → (b || true) ≡ true
or_true true = refl
or_true false = refl

put_names :
    (r p id : Text) (chunks : List CodeChunk) (s : Points)
    → All (λ x. is_of r p x ≡ true) chunks
    → names r p (put_all chunks s id) ≡ has_path id (map id_of chunks) || names r p (s id)
unfolding put_all has_path is_of
put_names r p id [] s own = refl
put_names r p id (x ∷ xs) s own = elim (Bool-cases (same_text x.id id)) [
  | inl same ↦
      put_names r p id xs (put_one x s) own.1
      ∙ rw (same, own.0) (or_true (has_path id (map id_of xs)))
  | inr other ↦ put_names r p id xs (put_one x s) own.1 ∙ rw other refl
]

put_elsewhere :
    (id : Text) (chunks : List CodeChunk) (s : Points)
    → has_path id (map id_of chunks) ≡ false
    → put_all chunks s id ≡ s id
unfolding put_all has_path
put_elsewhere id [] s none_has = refl
put_elsewhere id (x ∷ xs) s none_has = elim (Bool-cases (same_text x.id id)) [
  | inl same ↦ absurd (ground arith)
  | inr other ↦
      let z : has_path id (map id_of xs) ≡ false = ground arith in
      put_elsewhere id xs (put_one x s) z ∙ rw other refl
]

memory-IsLawful : IsLawful memory
memory-IsLawful = record {
  deletes = λ r p id s t e. rw (sym (Reply-done _ _ e)) (dropped r p (s id));
  delete_others = λ r p r' p' id s other. kept r p r' p' (s id) other;
  upserts = λ r p id chunks s t own e. rw (sym (Reply-done _ _ e)) (put_names r p id chunks s own);
  upsert_others = λ r p r' p' id chunks s own other none_has.
      ap (names r' p') (put_elsewhere id chunks s none_has);
}

abbrev setup : Setup
setup = record {
  tools = tools;
  chunker = chunker;
  model = [];
  version = [];
  embed = λ texts. some texts;
  disk = record {
    commit = b'c' ∷ [];
    files = some (file.file_path ∷ []);
    digest = λ p. some (b'd' ∷ []);
    content = λ p. if same_text p file.file_path then some file.content else none;
  };
  repository_id = file.repository_id;
  incremental = false;
  now = 5;
}

abbrev before : Run Points
before = record {
  index = record {
    repositories =
        record {
          id = file.repository_id;
          name = [];
          root = [];
          commit_sha = [];
          status = registered;
          created_at = 1;
          updated_at = 1;
        }
        ∷ [];
    keys = [];
    files = λ r p. none;
    chunks = [];
    pending = λ r p. false;
  };
  vectors = λ id. none;
  answers = [];
  stats = record {
    total_files = 0;
    indexed_files = 0;
    indexed_chunks = 0;
    deleted_files = 0;
    skipped_files = 0;
    error_count = 0;
  };
  reports = [];
}

-- The one file of the disk.
abbrev home : Text → Text × Text
home id = (file.repository_id, file.file_path)

All_always : {A : Type 0} (P : A → Type 0) → ((x : A) → P x) → (xs : List A) → All P xs
All_always P f [] = tt
All_always P f (x ∷ xs) = (f x, All_always P f xs)

setup-Names : Names memory home setup
setup-Names path content read = elim (Bool-cases (same_text path file.file_path)) [
  | inl same ↦
      All_always _
        (λ x. ap (λ p. (file.repository_id, p)) (sym (same_text_sound path file.file_path same)))
        (chunk setup.tools setup.chunker (source_of memory setup path content))
  | inr other ↦ absurd (ground arith)
]

run_index-Synced_example :
    Synced memory home
      (run_index memory setup before).1.index
      (run_index memory setup before).1.vectors
run_index-Synced_example =
    run_index-Synced memory home setup before memory-IsLawful setup-Names
      (λ files e. unfold with_slashes in ground arith) (λ r p row at marked. absurd (ground arith))

abbrev all_indexed : Stats
all_indexed = record {
  total_files = 1;
  indexed_files = 1;
  indexed_chunks = 2;
  deleted_files = 0;
  skipped_files = 0;
  error_count = 0;
}

it_returns : (run_index memory setup before).0 ≡ returns all_indexed
unfolding run_index replace_file_chunks chunk is_of suffix with_slashes decimal fallback_chunks
    split_lines repository update_repository manifest_paths pending_deletions mark_vector_dirty
it_returns = refl

run_index-Accounted_example : Accounted memory setup before.index all_indexed
run_index-Accounted_example = run_index-Accounted memory setup before all_indexed it_returns
