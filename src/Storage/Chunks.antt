-- ===== src/Storage/Chunks.antt =====
-- chunking.py and db.py: the chunks that chunk makes are rows of their file.
use repomesh.Prelude.{
  ℕ, ◌≡◌, ◌+◌, ◌&&◌, refl, subst, true, Option, none, some, List, [], ◌∷◌, map, arith, Bool-cases,
  Option-cases, inl, inr, All, All-append, ltb, max, length, if◌then◌else◌,
}
use repomesh.Chunking.Texts.{Text, split_lines, with_slashes}
use repomesh.Chunking.Language.{Language, SymbolKind, has_symbols, language_for}
use repomesh.Chunking.Tree.{Symbol, candidates, sort, children_of}
use repomesh.Chunking.Windows.{Window, line_windows}
use repomesh.Chunking.Chunker.{
  Tools, CodeChunk, CodeChunker, Source, Strategy, tree_sitter, tree_sitter_split, line_fallback,
  make_chunk, window_chunks, fallback_chunks, symbol_chunks, all_chunks, is_empty,
  tree_sitter_chunks, or_fallback, chunk,
}
use repomesh.Storage.Files.{is_of}
use repomesh.Storage.Lookup.{same_key_refl}

All-map :
    {A : Type 0} (P : CodeChunk → Type 0) (f : A → CodeChunk) (xs : List A)
    → ((x : A) → P (f x))
    → All P (map f xs)
All-map P f [] h = tt
All-map P f (x ∷ xs) h = (h x, All-map P f xs h)

-- What every chunk that is made has, every chunk of a file has.
module _ (tools : Tools) (c : CodeChunker) (s : Source) (language : Language)
    (P : CodeChunk → Type 0)
    (made : (strategy : Strategy) (name : Option Text) (kind : Option SymbolKind) (w : Window)
      → P (make_chunk tools s language strategy name kind w)) where
  All-window_chunks :
      (first last : ℕ) (name : Option Text) (kind : Option SymbolKind) (strategy : Strategy)
      → All P (window_chunks tools c s language first last name kind strategy)
  unfolding window_chunks
  All-window_chunks first last name kind strategy =
      All-map P (make_chunk tools s language strategy name kind)
        (line_windows c.fallback_lines c.overlap first last) (made strategy name kind)

  All-symbol_chunks : (x : Symbol) → All P (symbol_chunks tools c s language x)
  unfolding symbol_chunks
  All-symbol_chunks x = elim (Bool-cases (ltb (c.max_lines + x.first) (x.last + 1))) [
    | inl long ↦ rw long (All-window_chunks x.first x.last x.name (some x.kind) tree_sitter_split)
    | inr small ↦ rw small (made tree_sitter x.name (some x.kind) (x.first, x.last), tt)
  ]

  All-all_chunks : (xs : List Symbol) → All P (all_chunks tools c s language xs)
  unfolding all_chunks
  All-all_chunks [] = tt
  All-all_chunks (x ∷ xs) =
      All-append P (symbol_chunks tools c s language x) (all_chunks tools c s language xs)
        (All-symbol_chunks x) (All-all_chunks xs)

  All-fallback_chunks : All P (fallback_chunks tools c s language)
  unfolding fallback_chunks
  All-fallback_chunks =
      All-window_chunks 1 (max 1 (length (split_lines s.content))) none none line_fallback

  All-or_fallback :
      (o : Option (List CodeChunk))
      → ((xs : List CodeChunk) → o ≡ some xs → All P xs)
      → All P (or_fallback tools c s language o)
  All-or_fallback none h = All-fallback_chunks
  All-or_fallback (some []) h = All-fallback_chunks
  All-or_fallback (some (x ∷ xs)) h = h (x ∷ xs) refl

  All-tree_sitter_chunks :
      (xs : List CodeChunk) → tree_sitter_chunks tools c s language ≡ some xs → All P xs
  unfolding tree_sitter_chunks
  All-tree_sitter_chunks xs e = elim (Option-cases (tools.parse language s.content)) [
    | inl raised ↦ absurd (ground arith)
    | inr (tree, parsed) ↦ elim (Bool-cases (tree.has_error && is_empty (children_of tree.root))) [
      | inl broken ↦ let p : xs ≡ [] = ground arith in rw p tt
      | inr whole ↦
          let p : all_chunks tools c s language (sort (candidates language tree.root)) ≡ xs =
            ground arith in
          subst (All P) p (All-all_chunks (sort (candidates language tree.root)))
    ]
  ]

  All-chunk_parts : All P (
      if has_symbols language
      then or_fallback tools c s language (tree_sitter_chunks tools c s language)
      else fallback_chunks tools c s language)
  All-chunk_parts = elim (Bool-cases (has_symbols language)) [
    | inl code ↦
        rw code (All-or_fallback (tree_sitter_chunks tools c s language) All-tree_sitter_chunks)
    | inr prose ↦ rw prose All-fallback_chunks
  ]

made_is_of :
    (tools : Tools) (s : Source) (language : Language) (strategy : Strategy) (name : Option Text)
    (kind : Option SymbolKind) (w : Window)
    → is_of s.repository_id
        (with_slashes s.file_path)
        (make_chunk tools s language strategy name kind w)
      ≡ true
unfolding make_chunk is_of
made_is_of tools s language strategy name kind (a, b) =
    same_key_refl s.repository_id (with_slashes s.file_path)

-- Every chunk of a file is a row of the file's repository and of its path with slashes for
-- backslashes.
pub chunk_rows :
    (tools : Tools) (c : CodeChunker) (s : Source)
    → All (λ x. is_of s.repository_id (with_slashes s.file_path) x ≡ true) (chunk tools c s)
unfolding chunk
chunk_rows tools c s =
    All-chunk_parts tools c s (language_for s.file_path)
      (λ x. is_of s.repository_id (with_slashes s.file_path) x ≡ true)
      (made_is_of tools s (language_for s.file_path))
