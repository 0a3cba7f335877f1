-- ===== src/Storage/Repositories.antt =====
-- db.py: add_repository, repository, repositories and update_repository.
use repomesh.Prelude.{
  ℕ, suc, Bool, false, ◌||◌, Option, none, some, is_some, List, [], ◌∷◌, ◌++◌, map, length,
  if◌then◌else◌,
}
use repomesh.Chunking.Texts.{Text, same_text}
use repomesh.Chunking.Chunker.{CodeChunk}
use repomesh.Storage.Files.{Repository, RepositoryStatus, Index, manifest_paths}

unfoldable pub find_repository : Text → List Repository → Option Repository
find_repository id [] = none
find_repository id (x ∷ xs) =
    let rest = find_repository id xs in if same_text x.id id then some x else rest

unfoldable pub has_root : Text → List Repository → Bool
has_root root [] = false
has_root root (x ∷ xs) = same_text x.root root || has_root root xs

-- `none` is the IntegrityError of an id or a root that is there.
unfoldable pub add_repository : Repository → Index → Option Index
unfolding find_repository has_root
add_repository x index =
    if is_some (find_repository x.id index.repositories) || has_root x.root index.repositories
    then none
    else some (record index { repositories = index.repositories ++ x ∷ [] })

unfoldable pub chunk_count : Text → List CodeChunk → ℕ
chunk_count id [] = 0
chunk_count id (x ∷ xs) =
    let rest = chunk_count id xs in if same_text x.repository_id id then suc rest else rest

-- A row with its counts.
pub record CountedRepository : Type 0 where
  pub row : Repository
  pub indexed_files : ℕ
  pub indexed_chunks : ℕ

unfoldable pub counted : Index → Repository → CountedRepository
unfolding chunk_count
counted index x = record {
  row = x;
  indexed_files = length (manifest_paths x.id index);
  indexed_chunks = chunk_count x.id index.chunks;
}

unfoldable pub repository : Text → Index → Option CountedRepository
unfolding find_repository counted
repository id index = elim (find_repository id index.repositories) [
  | none ↦ none
  | some x ↦ some (counted index x)
]

-- In the order of insertion, which is that of created_at.
unfoldable pub repositories : Index → List CountedRepository
unfolding counted
repositories index = map (counted index) index.repositories

-- update_repository with commit_sha and status, its one use.
unfoldable pub update_repositories :
    ℕ → Text → Text → RepositoryStatus → List Repository → List Repository
update_repositories now id commit_sha status [] = []
update_repositories now id commit_sha status (x ∷ xs) =
    (if same_text x.id id
      then record x { commit_sha = commit_sha; status = status; updated_at = now }
      else x)
    ∷ update_repositories now id commit_sha status xs

unfoldable pub update_repository : ℕ → Text → Text → RepositoryStatus → Index → Index
unfolding update_repositories
update_repository now id commit_sha status index = record index {
  repositories = update_repositories now id commit_sha status index.repositories;
}
