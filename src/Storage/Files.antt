-- ===== src/Storage/Files.antt =====
-- db.py: file_manifest, replace_file_chunks, delete_file, mark_vector_dirty, pending_deletions,
-- finish_vector_deletion and update_file_commit. A key of two columns is a function
-- of both; the rows of `chunks` stand in the order of their rowid.
use repomesh.Prelude.{
  ℕ, Bool, true, false, not, ◌&&◌, ◌||◌, is_some, Option, none, some, List, [], ◌∷◌, ◌++◌, length,
  if◌then◌else◌,
}
use repomesh.Chunking.Texts.{Text, same_text}
use repomesh.Chunking.Chunker.{CodeChunk}

pub record FileRow : Type 0 where
  pub sha256 : Text
  pub commit_sha : Text
  pub chunk_count : ℕ
  pub vector_synced : Bool
  pub indexed_at : ℕ

pub data RepositoryStatus : Type 0 where
  registered indexed : RepositoryStatus

pub record Repository : Type 0 where
  pub id : Text
  pub name : Text
  pub root : Text
  pub commit_sha : Text
  pub status : RepositoryStatus
  pub created_at : ℕ
  pub updated_at : ℕ

-- Files and pending deletions by repository and path; `keys` lists the keys that either table has
-- had, in the order of their first insertion.
pub record Index : Type 0 where
  pub repositories : List Repository
  pub keys : List (Text × Text)
  pub files : Text → Text → Option FileRow
  pub chunks : List CodeChunk
  pub pending : Text → Text → Bool

unfoldable pub same_key : Text → Text → Text → Text → Bool
unfolding same_text
same_key repository path r p = same_text repository r && same_text path p

-- repository_id=? AND file_path=?
unfoldable pub is_of : Text → Text → CodeChunk → Bool
unfolding same_key
is_of repository path x = same_key x.repository_id x.file_path repository path

unfoldable pub keep : (CodeChunk → Bool) → List CodeChunk → List CodeChunk
keep p [] = []
keep p (x ∷ xs) = let rest = keep p xs in if p x then (x ∷ rest) else rest

-- The rows of a file.
unfoldable pub chunks_of : Text → Text → Index → List CodeChunk
unfolding keep is_of
chunks_of repository path index = keep (is_of repository path) index.chunks

unfoldable pub without : Text → Text → List CodeChunk → List CodeChunk
unfolding keep is_of
without repository path = keep (λ x. not (is_of repository path x))

unfoldable pub has_id : Text → List CodeChunk → Bool
has_id id [] = false
has_id id (x ∷ xs) = same_text x.id id || has_id id xs

-- The INSERTs one after the other; `none` is the IntegrityError of an id that is there.
unfoldable pub insert_chunks : List CodeChunk → List CodeChunk → Option (List CodeChunk)
unfolding has_id
insert_chunks [] rows = some rows
insert_chunks (x ∷ xs) rows =
    let rest = insert_chunks xs (rows ++ x ∷ []) in if has_id x.id rows then none else rest

unfoldable pub note_key : Text → Text → List (Text × Text) → List (Text × Text)
unfolding same_key
note_key r p [] = (r, p) ∷ []
note_key r p ((a, b) ∷ keys) =
    let rest = note_key r p keys in if same_key a b r p then ((a, b) ∷ keys) else ((a, b) ∷ rest)

unfoldable pub set_file : Text → Text → Option FileRow → Index → Index
unfolding same_key note_key
set_file repository path row index = record index {
  keys = note_key repository path index.keys;
  files = λ r p. if same_key r p repository path then row else index.files r p;
}

unfoldable pub set_pending : Text → Text → Bool → Index → Index
unfolding same_key note_key
set_pending repository path flag index = record index {
  keys = note_key repository path index.keys;
  pending = λ r p. if same_key r p repository path then flag else index.pending r p;
}

-- `none` is a transaction that raised, and left the index as it was.
unfoldable pub replace_file_chunks :
    ℕ → Text → Text → Text → Text → List CodeChunk → Bool → Index → Option Index
unfolding without insert_chunks set_file
replace_file_chunks now repository path sha256 commit_sha chunks vector_synced index =
    elim (insert_chunks chunks (without repository path index.chunks)) [
      | none ↦ none
      | some rows ↦ some (
          set_file repository path
            (some (record {
              sha256 = sha256;
              commit_sha = commit_sha;
              chunk_count = length chunks;
              vector_synced = vector_synced;
              indexed_at = now;
            }))
            (record index { chunks = rows }))
    ]

unfoldable pub delete_file : Text → Text → Index → Index
unfolding without set_file set_pending
delete_file repository path index =
    set_file repository path none (record (set_pending repository path true index) {
      chunks = without repository path index.chunks;
    })

abbrev pub dirty : Option FileRow → Option FileRow
dirty none = none
dirty (some row) = some (record row { vector_synced = false })

unfoldable pub mark_vector_dirty : Text → Text → Index → Index
unfolding set_file
mark_vector_dirty repository path index =
    set_file repository path (dirty (index.files repository path)) index

unfoldable pub finish_vector_deletion : Text → Text → Index → Index
unfolding set_pending
finish_vector_deletion repository path index = set_pending repository path false index

abbrev pub at_commit : Text → Option FileRow → Option FileRow
at_commit commit_sha none = none
at_commit commit_sha (some row) = some (record row { commit_sha = commit_sha })

unfoldable pub advance : Text → Text → Text → List CodeChunk → List CodeChunk
unfolding is_of
advance repository path commit_sha [] = []
advance repository path commit_sha (x ∷ xs) =
    (if is_of repository path x then record x { commit_sha = commit_sha } else x)
    ∷ advance repository path commit_sha xs

unfoldable pub update_file_commit : Text → Text → Text → Index → Index
unfolding set_file advance
update_file_commit repository path commit_sha index =
    record (set_file repository path (at_commit commit_sha (index.files repository path)) index) {
      chunks = advance repository path commit_sha index.chunks;
    }

-- The paths of a repository's keys at which the test holds.
unfoldable pub paths_where : Text → (Text → Bool) → List (Text × Text) → List Text
paths_where repository p [] = []
paths_where repository p ((a, b) ∷ keys) =
    let rest = paths_where repository p keys in
    if same_text a repository && p b then (b ∷ rest) else rest

-- The keys of file_manifest.
unfoldable pub manifest_paths : Text → Index → List Text
unfolding paths_where
manifest_paths repository index =
    paths_where repository (λ p. is_some (index.files repository p)) index.keys

unfoldable pub pending_deletions : Text → Index → List Text
unfolding paths_where
pending_deletions repository index = paths_where repository (index.pending repository) index.keys
