-- ===== src/Discovery/Files.antt =====
-- repositories.py: validate_repository_path, current_commit, register_repository and
-- discover_files. The file system and git are parameters.
use repomesh.Prelude.{
  ℕ, Bool, true, false, not, ◌&&◌, ◌||◌, Option, none, some, List, [], ◌∷◌, ◌++◌, ◌==◌, leb, map,
  take, sort_by, filter, if◌then◌else◌,
}
use repomesh.Chunking.Texts.{Text, lstrip, rstrip, with_slashes, same_text}
use repomesh.Storage.Files.{Repository, registered}
use repomesh.Discovery.Filters.{
  Parts, same_parts, is_relative_to, name_of, parts_before, is_indexable,
}

-- What git prints, or how its call fails: with a SubprocessError or an OSError.
pub data Git : Type 0 where
  printed : List ℕ → Git
  subprocess_error os_error : Git

-- `resolve` and `expanduser` are the methods of Path, which do not raise here; `decode` is the text
-- of what git prints; `size` and `bytes` are `none` for an OSError; `lowered` is str.lower and
-- `uuid_of_url` is uuid5 with NAMESPACE_URL.
pub record Host : Type 0 where
  pub expanduser : Parts → Parts
  pub resolve : Parts → Parts
  pub is_dir : Parts → Bool
  pub is_file : Parts → Bool
  pub size : Parts → Option ℕ
  pub bytes : Parts → Option (List ℕ)
  pub decode : List ℕ → Text
  pub show_toplevel : Parts → Git
  pub rev_parse_head : Parts → Git
  pub ls_files : Parts → Git
  pub lowered : Text → Text
  pub uuid_of_url : Text → Text

unfoldable pub strip : Text → Text
strip t = lstrip (rstrip t)

abbrev onto_first : ℕ → List Text → List Text
onto_first c [] = (c ∷ []) ∷ []
onto_first c (t ∷ ts) = (c ∷ t) ∷ ts

-- split(sep), on one character.
unfoldable pub split_at : ℕ → List ℕ → List (List ℕ)
split_at sep [] = [] ∷ []
split_at sep (c ∷ cs) =
    let rest = split_at sep cs in if c == sep then ([] ∷ rest) else onto_first c rest

abbrev is_part : Text → Bool
is_part [] = false
is_part (c ∷ cs) = not (same_text (c ∷ cs) (b'.' ∷ []))

abbrev root_of : Text → Parts
root_of [] = []
root_of (c ∷ cs) = if c == b'/' then (b'/' ∷ []) ∷ [] else []

-- Path(text).parts: the root, then the parts between slashes that are not empty and not a dot. A
-- text that starts with exactly two slashes is left out.
unfoldable pub parts_of : Text → Parts
unfolding split_at filter
parts_of t = root_of t ++ filter is_part (split_at b'/' t)

-- Where a directory is not accepted, the message.
pub data Invalid : Type 0 where
  not_directory outside_roots not_readable_repository subdirectory : Invalid

pub data Validation : Type 0 where
  accepted : Parts → Validation
  rejected : Invalid → Validation

unfoldable pub is_allowed : Parts → List Parts → Bool
unfolding same_parts is_relative_to
is_allowed path [] = false
is_allowed path (root ∷ roots) =
    (same_parts path root || is_relative_to path root) || is_allowed path roots

abbrev pub is_top : Host → Parts → Git → Validation
is_top host path subprocess_error = rejected not_readable_repository
is_top host path os_error = rejected not_readable_repository
is_top host path (printed output) =
    if same_parts (host.resolve (parts_of (strip (host.decode output)))) path
    then accepted path
    else rejected subdirectory

unfoldable pub validate_path : Host → Parts → List Parts → Validation
unfolding is_allowed same_parts parts_of strip
validate_path host path roots =
    if not (host.is_dir path)
    then rejected not_directory
    else if not (is_allowed path roots)
    then rejected outside_roots
    else is_top host path (host.show_toplevel path)

unfoldable pub validate_repository_path : Host → Text → List Parts → Validation
unfolding validate_path parts_of
validate_repository_path host path_text roots =
    validate_path host (host.resolve (host.expanduser (parts_of path_text))) roots

abbrev uncommitted : Text
uncommitted = b'U' ∷ b'N' ∷ b'C' ∷ b'O' ∷ b'M' ∷ b'M' ∷ b'I' ∷ b'T' ∷ b'T' ∷ b'E' ∷ b'D' ∷ []

-- `none` is the OSError, which goes on to the caller.
unfoldable pub current_commit : Host → Parts → Option Text
unfolding strip
current_commit host path = elim (host.rev_parse_head path) [
  | printed output ↦ some (strip (host.decode output))
  | subprocess_error ↦ some uncommitted
  | os_error ↦ none
]

unfoldable pub between_slashes : Parts → Text
between_slashes [] = []
between_slashes (p ∷ []) = p
between_slashes (p ∷ q ∷ rest) = p ++ b'/' ∷ between_slashes (q ∷ rest)

-- str(path), of an absolute path.
unfoldable pub text_of : Parts → Text
unfolding between_slashes
text_of [] = []
text_of (root ∷ rest) = root ++ between_slashes rest

abbrev name_or : Option Text → Text → Text
name_or none other = other
name_or (some []) other = other
name_or (some (c ∷ cs)) other = c ∷ cs

unfoldable pub register_repository : Host → ℕ → Parts → Option Text → Option Repository
unfolding current_commit text_of name_of with_slashes
register_repository host now path name = elim (current_commit host path) [
  | none ↦ none
  | some commit ↦ some (record {
    id = host.uuid_of_url (with_slashes (host.lowered (text_of path)));
    name = name_or name (name_of path);
    root = text_of path;
    commit_sha = commit;
    status = registered;
    created_at = now;
    updated_at = now;
  })
]

abbrev is_filled : List ℕ → Bool
is_filled [] = false
is_filled (c ∷ cs) = true

unfoldable pub has_nul : List ℕ → Bool
has_nul [] = false
has_nul (b ∷ bs) = b == 0 || has_nul bs

abbrev pub fits : ℕ → Option ℕ → Bool
fits max_bytes none = false
fits max_bytes (some n) = leb n max_bytes

abbrev pub is_text : Option (List ℕ) → Bool
is_text none = false
is_text (some bytes) = not (has_nul (take 8192 bytes))

-- path / relative, where an absolute path replaces the other.
unfoldable pub join : Parts → Parts → Parts
join path [] = path
join path (p ∷ ps) = if same_text p (b'/' ∷ []) then (p ∷ ps) else path ++ p ∷ ps

-- The file that a listed path leads to.
unfoldable pub candidate_of : Host → Parts → Parts → Parts
unfolding join
candidate_of host path relative = host.resolve (join path relative)

unfoldable pub is_taken : Host → Parts → ℕ → Parts → Bool
unfolding candidate_of is_relative_to is_indexable has_nul
is_taken host path max_bytes relative =
    let candidate = candidate_of host path relative in
    host.is_file candidate
    && is_relative_to candidate path
    && is_indexable relative
    && fits max_bytes (host.size candidate)
    && is_text (host.bytes candidate)

unfoldable pub relative_paths : Host → List ℕ → List Parts
unfolding split_at filter parts_of
relative_paths host output =
    map (λ part. parts_of (host.decode part)) (filter is_filled (split_at 0 output))

-- `none` is the RepositoryValidationError or the OSError of git's call.
unfoldable pub discover_files : Host → Parts → ℕ → Option (List Parts)
unfolding relative_paths is_taken filter candidate_of sort_by parts_before
discover_files host path max_bytes = elim (host.ls_files path) [
  | subprocess_error ↦ none
  | os_error ↦ none
  | printed output ↦ some (
      sort_by parts_before (
        map (candidate_of host path)
          (filter (is_taken host path max_bytes) (relative_paths host output))))
]
