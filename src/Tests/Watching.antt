-- ===== src/Tests/Watching.antt =====
-- A round of the watcher over the repository of Tests/Discovery, and fingerprints of one file.
use repomesh.Prelude.{
  ◌≡◌, ◌↔◌, refl, true, false, Option, some, List, [], ◌∷◌, ◌++◌, length, map, take, IsSortedBy,
}
use repomesh.Coordination.World.{start}
use repomesh.Chunking.Texts.{Text, same_text, lstrip, rstrip}
use repomesh.Storage.Files.{Repository, registered, Index}
use repomesh.Indexing.Paths.{text_before}
use repomesh.Discovery.Filters.{Parts, same_parts}
use repomesh.Discovery.Files.{Host, printed, current_commit, discover_files, has_nul}
use repomesh.Watching.Fingerprint.{
  Entry, fingerprint_text, relative_text, hashed, repository_fingerprint, stored_fingerprint,
}
use repomesh.Watching.Watcher.{Watching, run_once}
use repomesh.Watching.Refines.{Refined, run_once-Refines}
use repomesh.Watching.Agrees.{
  IsPlain, fingerprint_text_unique, stored_entries, Scanned, repository_fingerprint-IsSortedBy,
}
use repomesh.Tests.Coordination.{settings, exhausted}
use repomesh.Tests.Discovery.{root, host, src_py}

abbrev one_file : Host
one_file = record host { ls_files = λ p. printed (src_py ++ 0 ∷ []) }

abbrev commit : Text
commit = b'c' ∷ []

abbrev digest : Text
digest = b'd' ∷ []

abbrev sha256 : Parts → Option Text
sha256 file = some digest

abbrev entries : List Entry
entries = (src_py, digest) ∷ []

entries-IsPlain : IsPlain commit entries
unfolding has_nul
entries-IsPlain = record { commit_plain = refl; entries_plain = ((refl, refl), tt) }

fingerprint_text_unique_example :
    (fingerprint_text commit entries ≡ fingerprint_text commit entries)
    ↔ ((commit ≡ commit) × (entries ≡ entries))
fingerprint_text_unique_example =
    fingerprint_text_unique commit commit entries entries entries-IsPlain entries-IsPlain

abbrev repository : Repository
repository = record {
  id = b'i' ∷ [];
  name = [];
  root = b'/' ∷ b'r' ∷ [];
  commit_sha = commit;
  status = registered;
  created_at = 1;
  updated_at = 1;
}

abbrev index : Index
index = record {
  repositories = repository ∷ [];
  keys = (repository.id, src_py) ∷ [];
  files = λ r p. some (record {
    sha256 = digest;
    commit_sha = commit;
    chunk_count = 0;
    vector_synced = true;
    indexed_at = 1;
  });
  chunks = [];
  pending = λ r p. false;
}

abbrev found : List Parts
found = (root ++ src_py ∷ []) ∷ []

one_file-Scanned : Scanned one_file sha256 root 10 commit found entries
unfolding current_commit discover_files hashed same_parts same_text lstrip rstrip take
one_file-Scanned = record { at_commit = refl; found = refl; digests = refl }

stored-IsPlain : IsPlain commit (stored_entries repository.id index)
unfolding has_nul stored_fingerprint same_text
stored-IsPlain = record { commit_plain = refl; entries_plain = ((refl, refl), tt) }

agrees :
    repository_fingerprint one_file sha256 root 10
    ≡ some (stored_fingerprint repository.id commit index)
unfolding repository_fingerprint current_commit discover_files hashed stored_fingerprint same_parts
    same_text lstrip rstrip take
agrees = refl

repository_fingerprint-IsSortedBy_example :
    (commit ≡ commit) × IsSortedBy text_before (map (relative_text root) found)
repository_fingerprint-IsSortedBy_example =
    repository_fingerprint-IsSortedBy one_file sha256 root 10 commit found entries repository.id
      commit index one_file-Scanned entries-IsPlain stored-IsPlain agrees

abbrev watching : Watching
watching = record {
  settings = settings;
  exhausted = exhausted;
  roots = root ∷ [];
  max_bytes = 10;
  hash = λ t. length t;
  number = λ t. 1;
  acquired = true;
  before_list = [];
  look = λ id. record {
    before_ensure = [];
    stop_is_set = false;
    others = [];
    now = 5;
    fresh = 10;
    host = host;
    sha256 = sha256;
    index = index;
    message = [];
  };
}

run_once-Refines_example :
    Refined watching (repository ∷ []) start (run_once watching (repository ∷ []) start)
run_once-Refines_example = run_once-Refines watching (repository ∷ []) start
