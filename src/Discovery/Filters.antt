-- ===== src/Discovery/Filters.antt =====
-- repositories.py: the names that are left out, and the tests of discover_files on a listed path. A
-- path of pathlib is the list of its parts.
use repomesh.Prelude.{Bool, true, false, not, ◌&&◌, ◌||◌, List, [], ◌∷◌, if◌then◌else◌}
use repomesh.Chunking.Texts.{Text, lower, same_text, suffix}
use repomesh.Indexing.Paths.{has_path, text_before}

abbrev pub Parts : Type 0
Parts = List Text

abbrev pub default_ignored_parts : List Text
default_ignored_parts =
    (b'.' ∷ b'g' ∷ b'i' ∷ b't' ∷ [])
    ∷ (b'.' ∷ b'v' ∷ b'e' ∷ b'n' ∷ b'v' ∷ [])
    ∷ (b'v' ∷ b'e' ∷ b'n' ∷ b'v' ∷ [])
    ∷ (b'n' ∷ b'o' ∷ b'd' ∷ b'e' ∷ b'_' ∷ b'm' ∷ b'o' ∷ b'd' ∷ b'u' ∷ b'l' ∷ b'e' ∷ b's' ∷ [])
    ∷ (b'b' ∷ b'u' ∷ b'i' ∷ b'l' ∷ b'd' ∷ [])
    ∷ (b'd' ∷ b'i' ∷ b's' ∷ b't' ∷ [])
    ∷ (b't' ∷ b'a' ∷ b'r' ∷ b'g' ∷ b'e' ∷ b't' ∷ [])
    ∷ (b'c' ∷ b'o' ∷ b'v' ∷ b'e' ∷ b'r' ∷ b'a' ∷ b'g' ∷ b'e' ∷ [])
    ∷ (b'.' ∷ b'n' ∷ b'e' ∷ b'x' ∷ b't' ∷ [])
    ∷ (b'v' ∷ b'e' ∷ b'n' ∷ b'd' ∷ b'o' ∷ b'r' ∷ [])
    ∷ (b'_' ∷ b'_' ∷ b'p' ∷ b'y' ∷ b'c' ∷ b'a' ∷ b'c' ∷ b'h' ∷ b'e' ∷ b'_' ∷ b'_' ∷ [])
    ∷ []

abbrev pub secret_names : List Text
secret_names =
    (b'.' ∷ b'e' ∷ b'n' ∷ b'v' ∷ [])
    ∷ (b'.' ∷ b'e' ∷ b'n' ∷ b'v' ∷ b'.' ∷ b'l' ∷ b'o' ∷ b'c' ∷ b'a' ∷ b'l' ∷ [])
    ∷ (b'.' ∷ b'e' ∷ b'n' ∷ b'v' ∷ b'.' ∷ b'p' ∷ b'r' ∷ b'o' ∷ b'd' ∷ b'u' ∷ b'c' ∷ b't' ∷ b'i'
        ∷ b'o' ∷ b'n' ∷ [])
    ∷ (b'i' ∷ b'd' ∷ b'_' ∷ b'r' ∷ b's' ∷ b'a' ∷ [])
    ∷ (b'i' ∷ b'd' ∷ b'_' ∷ b'e' ∷ b'd' ∷ b'2' ∷ b'5' ∷ b'5' ∷ b'1' ∷ b'9' ∷ [])
    ∷ (b'c' ∷ b'r' ∷ b'e' ∷ b'd' ∷ b'e' ∷ b'n' ∷ b't' ∷ b'i' ∷ b'a' ∷ b'l' ∷ b's' ∷ b'.' ∷ b'j'
        ∷ b's' ∷ b'o' ∷ b'n' ∷ [])
    ∷ (b's' ∷ b'e' ∷ b'c' ∷ b'r' ∷ b'e' ∷ b't' ∷ b's' ∷ b'.' ∷ b'j' ∷ b's' ∷ b'o' ∷ b'n' ∷ [])
    ∷ (b'.' ∷ b'n' ∷ b'p' ∷ b'm' ∷ b'r' ∷ b'c' ∷ [])
    ∷ (b'.' ∷ b'p' ∷ b'y' ∷ b'p' ∷ b'i' ∷ b'r' ∷ b'c' ∷ [])
    ∷ []

abbrev pub binary_extensions : List Text
binary_extensions =
    (b'.' ∷ b'e' ∷ b'x' ∷ b'e' ∷ [])
    ∷ (b'.' ∷ b'd' ∷ b'l' ∷ b'l' ∷ [])
    ∷ (b'.' ∷ b's' ∷ b'o' ∷ [])
    ∷ (b'.' ∷ b'd' ∷ b'y' ∷ b'l' ∷ b'i' ∷ b'b' ∷ [])
    ∷ (b'.' ∷ b'b' ∷ b'i' ∷ b'n' ∷ [])
    ∷ (b'.' ∷ b'z' ∷ b'i' ∷ b'p' ∷ [])
    ∷ (b'.' ∷ b't' ∷ b'a' ∷ b'r' ∷ [])
    ∷ (b'.' ∷ b'g' ∷ b'z' ∷ [])
    ∷ (b'.' ∷ b'7' ∷ b'z' ∷ [])
    ∷ (b'.' ∷ b'p' ∷ b'n' ∷ b'g' ∷ [])
    ∷ (b'.' ∷ b'j' ∷ b'p' ∷ b'g' ∷ [])
    ∷ (b'.' ∷ b'j' ∷ b'p' ∷ b'e' ∷ b'g' ∷ [])
    ∷ (b'.' ∷ b'g' ∷ b'i' ∷ b'f' ∷ [])
    ∷ (b'.' ∷ b'w' ∷ b'e' ∷ b'b' ∷ b'p' ∷ [])
    ∷ (b'.' ∷ b'i' ∷ b'c' ∷ b'o' ∷ [])
    ∷ (b'.' ∷ b'p' ∷ b'd' ∷ b'f' ∷ [])
    ∷ (b'.' ∷ b'w' ∷ b'o' ∷ b'f' ∷ b'f' ∷ [])
    ∷ (b'.' ∷ b'w' ∷ b'o' ∷ b'f' ∷ b'f' ∷ b'2' ∷ [])
    ∷ (b'.' ∷ b't' ∷ b't' ∷ b'f' ∷ [])
    ∷ (b'.' ∷ b'm' ∷ b'p' ∷ b'3' ∷ [])
    ∷ (b'.' ∷ b'm' ∷ b'p' ∷ b'4' ∷ [])
    ∷ (b'.' ∷ b'm' ∷ b'o' ∷ b'v' ∷ [])
    ∷ (b'.' ∷ b'a' ∷ b'v' ∷ b'i' ∷ [])
    ∷ (b'.' ∷ b'c' ∷ b'l' ∷ b'a' ∷ b's' ∷ b's' ∷ [])
    ∷ (b'.' ∷ b'j' ∷ b'a' ∷ b'r' ∷ [])
    ∷ (b'.' ∷ b'p' ∷ b'y' ∷ b'c' ∷ [])
    ∷ (b'.' ∷ b'l' ∷ b'o' ∷ b'c' ∷ b'k' ∷ [])
    ∷ []

abbrev pub generated_suffixes : List Text
generated_suffixes =
    (b'.' ∷ b'm' ∷ b'i' ∷ b'n' ∷ b'.' ∷ b'j' ∷ b's' ∷ [])
    ∷ (b'.' ∷ b'm' ∷ b'i' ∷ b'n' ∷ b'.' ∷ b'c' ∷ b's' ∷ b's' ∷ [])
    ∷ (b'.' ∷ b'm' ∷ b'a' ∷ b'p' ∷ [])
    ∷ (b'.' ∷ b'g' ∷ b'e' ∷ b'n' ∷ b'e' ∷ b'r' ∷ b'a' ∷ b't' ∷ b'e' ∷ b'd' ∷ b'.' ∷ b'p' ∷ b'y'
        ∷ [])
    ∷ (b'.' ∷ b'g' ∷ b'.' ∷ b'c' ∷ b's' ∷ [])
    ∷ []

unfoldable pub same_parts : Parts → Parts → Bool
same_parts [] [] = true
same_parts [] (q ∷ qs) = false
same_parts (p ∷ ps) [] = false
same_parts (p ∷ ps) (q ∷ qs) = same_text p q && same_parts ps qs

-- path.is_relative_to(root), which a path is to itself.
unfoldable pub is_relative_to : Parts → Parts → Bool
is_relative_to path [] = true
is_relative_to [] (r ∷ root) = false
is_relative_to (p ∷ path) (r ∷ root) = same_text p r && is_relative_to path root

-- path.name: the last part.
unfoldable pub name_of : Parts → Text
name_of [] = []
name_of (p ∷ []) = p
name_of (p ∷ q ∷ rest) = name_of (q ∷ rest)

-- The order of paths: by their parts.
unfoldable pub parts_before : Parts → Parts → Bool
unfolding text_before
parts_before [] [] = false
parts_before [] (q ∷ qs) = true
parts_before (p ∷ ps) [] = false
parts_before (p ∷ ps) (q ∷ qs) =
    let rest = parts_before ps qs in if same_text p q then rest else text_before p q

unfoldable pub ends_with : Text → Text → Bool
ends_with end [] = same_text end []
ends_with end (c ∷ cs) = same_text end (c ∷ cs) || ends_with end cs

unfoldable pub has_ignored_part : Parts → Bool
unfolding lower has_path
has_ignored_part [] = false
has_ignored_part (p ∷ ps) = has_path (lower p) default_ignored_parts || has_ignored_part ps

unfoldable pub has_generated_suffix : List Text → Text → Bool
unfolding ends_with
has_generated_suffix [] name = false
has_generated_suffix (s ∷ rest) name = ends_with s name || has_generated_suffix rest name

-- The path is not left out for its names.
unfoldable pub is_indexable : Parts → Bool
unfolding has_ignored_part name_of lower has_path suffix has_generated_suffix
is_indexable relative =
    not (has_ignored_part relative || has_path (lower (name_of relative)) secret_names)
    && not (has_path (lower (suffix (name_of relative))) binary_extensions)
    && not (has_generated_suffix generated_suffixes (lower (name_of relative)))
