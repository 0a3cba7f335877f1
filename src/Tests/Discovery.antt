-- ===== src/Tests/Discovery.antt =====
-- A repository /r with the files src.py and src/x.py, a secret and a binary.
use repomesh.Prelude.{ℕ, ◌≡◌, ◌↔◌, refl, not, some, List, [], ◌∷◌, ◌++◌, take}
use repomesh.Chunking.Texts.{Text, same_text, lstrip, rstrip}
use repomesh.Discovery.Filters.{Parts, same_parts}
use repomesh.Discovery.Files.{
  printed, Host, parts_of, accepted, validate_repository_path, discover_files,
}
use repomesh.Discovery.Accepted.{Discovered, discover_files-Discovered}
use repomesh.Discovery.Validated.{IsRepository, validate_repository_path-IsRepository}

abbrev pub root : Parts
root = (b'/' ∷ []) ∷ (b'r' ∷ []) ∷ []

abbrev pub src_py : Text
src_py = b's' ∷ b'r' ∷ b'c' ∷ b'.' ∷ b'p' ∷ b'y' ∷ []

abbrev src : Text
src = b's' ∷ b'r' ∷ b'c' ∷ []

abbrev x_py : Text
x_py = b'x' ∷ b'.' ∷ b'p' ∷ b'y' ∷ []

abbrev env : Text
env = b'.' ∷ b'E' ∷ b'N' ∷ b'V' ∷ []

abbrev tar_lock : Text
tar_lock = b'a' ∷ b'.' ∷ b'L' ∷ b'o' ∷ b'c' ∷ 8490 ∷ []

abbrev pub output : List ℕ
output = src_py ++ 0 ∷ (src ++ b'/' ∷ (x_py ++ 0 ∷ (env ++ 0 ∷ (tar_lock ++ 0 ∷ []))))

abbrev pub host : Host
host = record {
  expanduser = λ p. p;
  resolve = λ p. p;
  is_dir = λ p. same_parts p root;
  is_file = λ p. not (same_parts p root);
  size = λ p. some 3;
  bytes = λ p. some (b'a' ∷ b'b' ∷ b'c' ∷ []);
  decode = λ bytes. bytes;
  show_toplevel = λ p. printed (b'/' ∷ b'r' ∷ 10 ∷ []);
  rev_parse_head = λ p. printed (b'c' ∷ 10 ∷ []);
  ls_files = λ p. printed output;
  lowered = λ t. t;
  uuid_of_url = λ t. t;
}

abbrev pub files : List Parts
files = (root ++ src ∷ x_py ∷ []) ∷ (root ++ src_py ∷ []) ∷ []

discovers_two : discover_files host root 10 ≡ some files
unfolding discover_files same_parts same_text take
discovers_two = refl

discover_files-Discovered_example : Discovered host root 10 output files
discover_files-Discovered_example =
    discover_files-Discovered host root 10 output files refl discovers_two

accepts_root : validate_repository_path host (b'/' ∷ b'r' ∷ []) (root ∷ []) ≡ accepted root
unfolding validate_repository_path same_text lstrip rstrip
accepts_root = refl

validate_repository_path-IsRepository_example :
    (validate_repository_path host (b'/' ∷ b'r' ∷ []) (root ∷ []) ≡ accepted root) ↔ (
      IsRepository host (root ∷ []) root
      × (host.resolve (host.expanduser (parts_of (b'/' ∷ b'r' ∷ []))) ≡ root))
validate_repository_path-IsRepository_example =
    validate_repository_path-IsRepository host (root ∷ []) (b'/' ∷ b'r' ∷ []) root
