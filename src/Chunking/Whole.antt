-- ===== src/Chunking/Whole.antt =====
-- chunking.py: a file without symbols, or that the parser fails on, is indexed whole.
use repomesh.Prelude.{
  ℕ, ◌≤◌, ◌≡◌, ◌⊎◌, max, false, Option, none, List, ◌∷◌, map, arith, Bool-cases, inl, inr, length,
}
use repomesh.Chunking.Texts.{Text, split_lines}
use repomesh.Chunking.Language.{Language, SymbolKind, has_symbols, language_for}
use repomesh.Chunking.Windows.{Window, line_windows}
use repomesh.Chunking.Cover.{Covers, here, later, line_windows-Covers}
use repomesh.Chunking.Chunker.{
  Tools, CodeChunk, CodeChunker, Source, Strategy, line_fallback, make_chunk, window_chunks,
  fallback_chunks, tree_sitter_chunks, chunk,
}

-- Some chunk's range of lines has the line.
pub data Shows (line : ℕ) : List CodeChunk → Type 0 where
  in_first :
      (x : CodeChunk) (xs : List CodeChunk)
      → x.start_line ≤ line
      → line ≤ x.end_line
      → Shows line (x ∷ xs)
  in_rest : (x : CodeChunk) (xs : List CodeChunk) → Shows line xs → Shows line (x ∷ xs)

module _ (tools : Tools) (c : CodeChunker) (s : Source) (language : Language) where
  made-Shows :
      (line : ℕ) (strategy : Strategy) (name : Option Text) (kind : Option SymbolKind)
      (ws : List Window)
      → Covers line ws
      → Shows line (map (make_chunk tools s language strategy name kind) ws)
  unfolding make_chunk
  made-Shows line strategy name kind _ (here a b ws p q) =
      in_first (make_chunk tools s language strategy name kind (a, b))
        (map (make_chunk tools s language strategy name kind) ws) p q
  made-Shows line strategy name kind _ (later w ws more) =
      in_rest (make_chunk tools s language strategy name kind w)
        (map (make_chunk tools s language strategy name kind) ws)
        (made-Shows line strategy name kind ws more)

  fallback_chunks-Shows :
      (line : ℕ)
      → 1 ≤ c.fallback_lines
      → 1 ≤ line
      → line ≤ length (split_lines s.content)
      → Shows line (fallback_chunks tools c s language)
  unfolding fallback_chunks window_chunks
  fallback_chunks-Shows line f p q =
      made-Shows line line_fallback none none
        (line_windows c.fallback_lines c.overlap 1 (max 1 (length (split_lines s.content))))
        (line_windows-Covers c.fallback_lines c.overlap 1 (max 1 (length (split_lines s.content)))
          line f p (omega (arith, q)))

  raised-none : tools.parse language s.content ≡ none → tree_sitter_chunks tools c s language ≡ none
  unfolding tree_sitter_chunks
  raised-none e = rw (e, tree_sitter_chunks)

-- If the file's language has no symbols or the parser fails on it, every line of the file is in
-- the range of some chunk, for windows of at least one line.
pub chunk-Shows :
    (tools : Tools) (c : CodeChunker) (s : Source) (line : ℕ)
    → (has_symbols (language_for s.file_path) ≡ false)
      ⊎ (tools.parse (language_for s.file_path) s.content ≡ none)
    → 1 ≤ c.fallback_lines
    → 1 ≤ line
    → line ≤ length (split_lines s.content)
    → Shows line (chunk tools c s)
unfolding chunk
chunk-Shows tools c s line plain_or_failed f p q =
    let whole : Shows line (fallback_chunks tools c s (language_for s.file_path)) =
      fallback_chunks-Shows tools c s (language_for s.file_path) line f p q in
    elim (Bool-cases (has_symbols (language_for s.file_path))) [
      | inr prose ↦ rw prose whole
      | inl code ↦ elim plain_or_failed [
        | inl prose ↦ absurd (ground arith)
        | inr failed ↦ rw code (rw (raised-none tools c s (language_for s.file_path) failed) whole)
      ]
    ]
