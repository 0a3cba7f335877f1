-- ===== src/Indexing/Services.antt =====
-- What the indexer calls: a vector store (providers.py's VectorStore), an embedder, the files of
-- the repository, and the callbacks of its caller.
use repomesh.Prelude.{ℕ, ◌≡◌, Bool, true, false, Option, ◌||◌, List, map, All}
use repomesh.Chunking.Texts.{Text}
use repomesh.Chunking.Chunker.{CodeChunk, Tools, CodeChunker}
use repomesh.Storage.Files.{same_key, is_of}
use repomesh.Indexing.Paths.{has_path}

-- What a call leaves; ProviderUnavailable is its one exception, after which anything may have been
-- done.
pub data Reply (S : Type 0) : Type 0 where
  done : S → Reply S
  unavailable : S → Reply S

-- `holds` says whether there is a point of an id whose payload names a file. A chunk carries its
-- vector.
pub record VectorStore : Type 1 where
  pub State : Type 0
  pub delete_file : Text → Text → State → Reply State
  pub upsert : List CodeChunk → State → Reply State
  pub holds : State → Text → Text → Text → Bool

abbrev pub id_of : CodeChunk → Text
id_of x = x.id

abbrev pub left_by : {S : Type 0} → Reply S → S
left_by (done s) = s
left_by (unavailable s) = s

-- What the code relies on, of a store that has one point for an id: a deletion removes the points
-- that name its file and no other; an upsert puts a point under every id that it is given, in
-- place of the one that was there, and touches no other id.
pub record IsLawful (V : VectorStore) : Type 0 where
  pub deletes :
      (r p id : Text) (s t : V.State) → V.delete_file r p s ≡ done t → V.holds t r p id ≡ false
  pub delete_others :
      (r p r' p' id : Text) (s : V.State)
      → same_key r' p' r p ≡ false
      → V.holds (left_by (V.delete_file r p s)) r' p' id ≡ V.holds s r' p' id
  pub upserts :
      (r p id : Text) (chunks : List CodeChunk) (s t : V.State)
      → All (λ x. is_of r p x ≡ true) chunks
      → V.upsert chunks s ≡ done t
      → V.holds t r p id ≡ has_path id (map id_of chunks) || V.holds s r p id
  pub upsert_others :
      (r p r' p' id : Text) (chunks : List CodeChunk) (s : V.State)
      → All (λ x. is_of r p x ≡ true) chunks
      → same_key r' p' r p ≡ false
      → has_path id (map id_of chunks) ≡ false
      → V.holds (left_by (V.upsert chunks s)) r' p' id ≡ V.holds s r' p' id

-- The answer of a callback: go on, or an exception.
pub data Answer : Type 0 where
  goes_on asks_cancel loses_lease : Answer

-- The repository as a run reads it: `none` is an exception. Each file is read once.
pub record Disk : Type 0 where
  pub commit : Text
  pub files : Option (List Text)
  pub digest : Text → Option Text
  pub content : Text → Option Text

-- A run's parameters: `embed` gives the vectors as their JSON, `none` for ProviderUnavailable.
pub record Setup : Type 0 where
  pub tools : Tools
  pub chunker : CodeChunker
  pub model : Text
  pub version : Text
  pub embed : List Text → Option (List Text)
  pub disk : Disk
  pub repository_id : Text
  pub incremental : Bool
  pub now : ℕ
