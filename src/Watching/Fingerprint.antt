-- ===== src/Watching/Fingerprint.antt =====
-- watcher.py: the texts that repository_fingerprint and run_once hash. Each is a commit with the
-- paths and the digests of files, with a NUL before and after each path. Hashing is a parameter, so
-- a fingerprint is its text.
use repomesh.Prelude.{ℕ, Option, none, some, List, [], ◌∷◌, ◌++◌, sort_by}
use repomesh.Chunking.Texts.{Text}
use repomesh.Storage.Files.{FileRow, Index, manifest_paths}
use repomesh.Indexing.Paths.{text_before}
use repomesh.Discovery.Filters.{Parts}
use repomesh.Discovery.Files.{Host, current_commit, discover_files, between_slashes}

-- A path with its digest.
abbrev pub Entry : Type 0
Entry = Text × Text

unfoldable pub entries_text : List Entry → Text
entries_text [] = []
entries_text ((path, digest) ∷ rest) = 0 ∷ (path ++ 0 ∷ (digest ++ entries_text rest))

unfoldable pub fingerprint_text : Text → List Entry → Text
unfolding entries_text
fingerprint_text commit entries = commit ++ entries_text entries

-- path.relative_to(root).as_posix(), of a path below the root.
unfoldable pub relative_text : Parts → Parts → Text
unfolding between_slashes
relative_text [] path = between_slashes path
relative_text (r ∷ root) [] = []
relative_text (r ∷ root) (p ∷ path) = relative_text root path

-- The hexadecimal SHA-256 of a file, `none` for an OSError.
unfoldable pub hashed : (Parts → Option Text) → Parts → List Parts → Option (List Entry)
unfolding relative_text
hashed sha256 root [] = some []
hashed sha256 root (file ∷ files) = elim (sha256 file) [
  | none ↦ none
  | some digest ↦ elim (hashed sha256 root files) [
    | none ↦ none
    | some rest ↦ some ((relative_text root file, digest) ∷ rest)
  ]
]

abbrev fingerprint_of : Text → Option (List Entry) → Option Text
fingerprint_of commit none = none
fingerprint_of commit (some entries) = some (fingerprint_text commit entries)

-- `none` is an exception of git or of reading a file.
unfoldable pub repository_fingerprint : Host → (Parts → Option Text) → Parts → ℕ → Option Text
repository_fingerprint host sha256 root max_bytes = elim (current_commit host root) [
  | none ↦ none
  | some commit ↦ elim (discover_files host root max_bytes) [
    | none ↦ none
    | some files ↦ fingerprint_of commit (hashed sha256 root files)
  ]
]

abbrev pub entry_in : Text → Option FileRow → List Entry → List Entry
entry_in path none rest = rest
entry_in path (some row) rest = (path, row.sha256) ∷ rest

unfoldable pub manifest_entries : (Text → Option FileRow) → List Text → List Entry
manifest_entries files [] = []
manifest_entries files (path ∷ rest) = entry_in path (files path) (manifest_entries files rest)

-- The fingerprint of the stored manifest, whose items are sorted by their path.
unfoldable pub stored_fingerprint : Text → Text → Index → Text
unfolding fingerprint_text manifest_entries manifest_paths sort_by text_before
stored_fingerprint id commit_sha index =
    fingerprint_text commit_sha
      (manifest_entries (index.files id) (sort_by text_before (manifest_paths id index)))
