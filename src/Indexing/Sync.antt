-- ===== src/Indexing/Sync.antt =====
-- The index's marks of files whose chunks the vector store holds. `home` is the file that the id of a
-- point names.
pub mod Steps
pub mod Blocks
pub mod Runs
use repomesh.Prelude.{◌≡◌, false, true, Bool, Option, some, List, map}
use repomesh.Chunking.Texts.{Text}
use repomesh.Chunking.Chunker.{CodeChunk}
use repomesh.Indexing.Paths.{has_path}
use repomesh.Storage.Files.{FileRow, Index, chunks_of}
use repomesh.Indexing.Services.{VectorStore, id_of}

-- Of the ids that name the file, the store has points under those of the chunks and no other.
abbrev pub Holds :
    (V : VectorStore) (home : Text → Text × Text) (r p : Text) → List CodeChunk → V.State → Type 0
Holds V home r p chunks v =
    (id : Text) → home id ≡ (r, p) → V.holds v r p id ≡ has_path id (map id_of chunks)

-- The store has the points of each file that is marked as synced.
abbrev pub Synced : (V : VectorStore) (home : Text → Text × Text) → Index → V.State → Type 0
Synced V home index v =
    (r p : Text) (row : FileRow)
    → index.files r p ≡ some row
    → row.vector_synced ≡ true
    → Holds V home r p (chunks_of r p index) v

-- The file is not marked as synced.
abbrev pub Dirty : Text → Text → Index → Type 0
Dirty r p index = (row : FileRow) → index.files r p ≡ some row → row.vector_synced ≡ false

-- While a file's vectors are exchanged.
pub record Between (V : VectorStore) (home : Text → Text × Text) (r p : Text) (index : Index)
    (v : V.State) : Type 0 where
  pub synced : Synced V home index v
  pub dirty : Dirty r p index
