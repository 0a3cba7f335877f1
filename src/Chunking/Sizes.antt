-- ===== src/Chunking/Sizes.antt =====
-- chunking.py: the chunks of a whole file.
use repomesh.Prelude.{
  ℕ, ◌+◌, ◌≤◌, ◌≡◌, ◌&&◌, sym, refl, max, Option, none, some, List, [], ◌∷◌, map, arith, Bool-cases,
  Option-cases, inl, inr, All, All-append, ltb, length, subst,
}
use repomesh.Chunking.Texts.{Text, split_lines}
use repomesh.Chunking.Language.{Language, SymbolKind, symbol_kind, has_symbols, language_for}
use repomesh.Chunking.Tree.{
  Node, Nodes, node, no_nodes, then_node, Symbol, own_symbol, candidates, sort, children_of,
}
use repomesh.Chunking.Walk.{symbols, symbols_of, candidates-symbols, All-sort}
use repomesh.Chunking.Windows.{Window, line_windows}
use repomesh.Chunking.Cover.{Fits, line_windows-Fits}
use repomesh.Chunking.Chunker.{
  Tools, CodeChunk, CodeChunker, Source, Strategy, line_fallback, tree_sitter_split, is_empty,
  make_chunk, window_chunks, fallback_chunks, symbol_chunks, all_chunks, tree_sitter_chunks,
  or_fallback, chunk,
}

-- A chunk has a first line, and no more lines than the larger of the two limits.
pub record Bounded (c : CodeChunker) (x : CodeChunk) : Type 0 where
  pub from_one : 1 ≤ x.start_line
  pub short : x.end_line + 1 ≤ x.start_line + max c.max_lines c.fallback_lines

abbrev FromOne : Symbol → Type 0
FromOne x = 1 ≤ x.first

own_symbol-FromOne : (language : Language) (x : Node) → All FromOne (own_symbol language x)
unfolding own_symbol
own_symbol-FromOne language (node t a b content f g children) =
    elim (Option-cases (symbol_kind language t)) [
      | inl other ↦ rw other tt
      | inr (kind, is) ↦ rw is (omega arith, tt)
    ]

mutual
  unfolding symbols

  symbols-FromOne : (language : Language) (x : Node) → All FromOne (symbols language x)
  symbols-FromOne language (node t a b content f g children) =
      All-append FromOne (own_symbol language (node t a b content f g children))
        (symbols_of language children)
        (own_symbol-FromOne language (node t a b content f g children))
        (symbols_of-FromOne language children)

  symbols_of-FromOne : (language : Language) (xs : Nodes) → All FromOne (symbols_of language xs)
  symbols_of-FromOne language no_nodes = tt
  symbols_of-FromOne language (then_node x rest) =
      All-append FromOne (symbols language x) (symbols_of language rest)
        (symbols-FromOne language x) (symbols_of-FromOne language rest)

module _ (tools : Tools) (c : CodeChunker) (s : Source) (language : Language) where
  made-Bounded :
      (first last : ℕ) (strategy : Strategy) (name : Option Text) (kind : Option SymbolKind)
      (ws : List Window)
      → 1 ≤ first
      → All (Fits c.fallback_lines first last) ws
      → All (Bounded c) (map (make_chunk tools s language strategy name kind) ws)
  unfolding make_chunk
  made-Bounded first last strategy name kind [] p all = tt
  made-Bounded first last strategy name kind ((a, b) ∷ ws) p all = (
    record { from_one = omega (arith, p, all.0.from_first); short = omega (arith, all.0.bounded) },
    made-Bounded first last strategy name kind ws p all.1,
  )

  window_chunks-Bounded :
      (first last : ℕ) (name : Option Text) (kind : Option SymbolKind) (strategy : Strategy)
      → 1 ≤ first
      → All (Bounded c) (window_chunks tools c s language first last name kind strategy)
  unfolding window_chunks
  window_chunks-Bounded first last name kind strategy p =
      made-Bounded first last strategy name kind
        (line_windows c.fallback_lines c.overlap first last) p
        (line_windows-Fits c.fallback_lines c.overlap first last p)

  symbol_chunks-Bounded :
      (x : Symbol) → FromOne x → All (Bounded c) (symbol_chunks tools c s language x)
  unfolding symbol_chunks make_chunk
  symbol_chunks-Bounded x p = elim (Bool-cases (ltb (c.max_lines + x.first) (x.last + 1))) [
    | inl long ↦
        rw long (window_chunks-Bounded x.first x.last x.name (some x.kind) tree_sitter_split p)
    | inr small ↦ rw small (record { from_one = p; short = ground arith }, tt)
  ]

  all_chunks-Bounded :
      (xs : List Symbol) → All FromOne xs → All (Bounded c) (all_chunks tools c s language xs)
  unfolding all_chunks
  all_chunks-Bounded [] all = tt
  all_chunks-Bounded (x ∷ xs) all =
      All-append (Bounded c) (symbol_chunks tools c s language x) (all_chunks tools c s language xs)
        (symbol_chunks-Bounded x all.0) (all_chunks-Bounded xs all.1)

  fallback_chunks-Bounded : All (Bounded c) (fallback_chunks tools c s language)
  unfolding fallback_chunks
  fallback_chunks-Bounded =
      window_chunks-Bounded 1 (max 1 (length (split_lines s.content))) none none line_fallback
        (omega arith)

  found-Bounded :
      (root : Node)
      → All (Bounded c) (all_chunks tools c s language (sort (candidates language root)))
  found-Bounded root = all_chunks-Bounded (sort (candidates language root)) (
      All-sort FromOne (candidates language root) (
        subst (All FromOne) (sym (candidates-symbols language root))
          (symbols-FromOne language root)))

  or_fallback-Bounded :
      (o : Option (List CodeChunk))
      → ((xs : List CodeChunk) → o ≡ some xs → All (Bounded c) xs)
      → All (Bounded c) (or_fallback tools c s language o)
  or_fallback-Bounded none h = fallback_chunks-Bounded
  or_fallback-Bounded (some []) h = fallback_chunks-Bounded
  or_fallback-Bounded (some (x ∷ xs)) h = h (x ∷ xs) refl

  tree_sitter_chunks-Bounded :
      (xs : List CodeChunk) → tree_sitter_chunks tools c s language ≡ some xs → All (Bounded c) xs
  unfolding tree_sitter_chunks
  tree_sitter_chunks-Bounded xs e = elim (Option-cases (tools.parse language s.content)) [
    | inl raised ↦ absurd (ground arith)
    | inr (tree, parsed) ↦ elim (Bool-cases (tree.has_error && is_empty (children_of tree.root))) [
      | inl broken ↦ let p : xs ≡ [] = ground arith in rw p tt
      | inr whole ↦
          let p : all_chunks tools c s language (sort (candidates language tree.root)) ≡ xs =
            ground arith in
          subst (All (Bounded c)) p (found-Bounded tree.root)
    ]
  ]

-- No chunk of a file, from symbols or from windows, has more lines than the larger of max_lines
-- and fallback_lines, and line numbers start at 1.
pub chunk-Bounded :
    (tools : Tools) (c : CodeChunker) (s : Source) → All (Bounded c) (chunk tools c s)
unfolding chunk
chunk-Bounded tools c s = elim (Bool-cases (has_symbols (language_for s.file_path))) [
  | inl code ↦ rw code (
      or_fallback-Bounded tools c s (language_for s.file_path)
        (tree_sitter_chunks tools c s (language_for s.file_path))
        (tree_sitter_chunks-Bounded tools c s (language_for s.file_path)))
  | inr prose ↦ rw prose (fallback_chunks-Bounded tools c s (language_for s.file_path))
]
