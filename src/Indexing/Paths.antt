-- ===== src/Indexing/Paths.antt =====
-- Lists of paths as the sets and dicts that the indexer builds of them.
use repomesh.Prelude.{Bool, true, false, ◌||◌, List, [], ◌∷◌, ltb, ◌==◌, if◌then◌else◌}
use repomesh.Chunking.Texts.{Text, same_text}

unfoldable pub has_path : Text → List Text → Bool
has_path p [] = false
has_path p (q ∷ qs) = same_text q p || has_path p qs

-- The order of str, by code points.
unfoldable pub text_before : Text → Text → Bool
text_before [] [] = false
text_before [] (d ∷ ds) = true
text_before (c ∷ cs) [] = false
text_before (c ∷ cs) (d ∷ ds) = let rest = text_before cs ds in if c == d then rest else ltb c d

-- A path put into a sorted list that has no path twice.
unfoldable pub insert_path : Text → List Text → List Text
unfolding text_before
insert_path p [] = p ∷ []
insert_path p (q ∷ qs) =
    let rest = insert_path p qs in
    if same_text q p then (q ∷ qs) else if text_before p q then (p ∷ q ∷ qs) else (q ∷ rest)

-- sorted(set(paths))
unfoldable pub sorted_set : List Text → List Text
unfolding insert_path
sorted_set [] = []
sorted_set (p ∷ ps) = insert_path p (sorted_set ps)

-- Those of the paths that the other list does not have.
unfoldable pub minus : List Text → List Text → List Text
unfolding has_path
minus [] qs = []
minus (p ∷ ps) qs = let rest = minus ps qs in if has_path p qs then rest else (p ∷ rest)

-- The keys of a dict that is built from the paths: each once, where it came first.
unfoldable pub dict_keys : List Text → List Text
unfolding minus
dict_keys [] = []
dict_keys (p ∷ ps) = p ∷ minus (dict_keys ps) (p ∷ [])
