-- ===== src/Chunking/Chunker.antt =====
-- chunking.py: CodeChunk and CodeChunker. `Tools` are sha256, uuid5 over NAMESPACE_URL, json.dumps,
-- the test of IMPORT_PATTERN and tree-sitter's parser, which fails with `none`.
use repomesh.Prelude.{
  ℕ, zero, suc, ◌+◌, ◌-◌, max, Bool, true, false, ◌&&◌, Option, none, some, List, [], ◌∷◌, ◌++◌,
  map, length, take, ltb, if◌then◌else◌,
}
use repomesh.Chunking.Texts.{
  Text, split_lines, join, rstrip, lstrip, drop_ends, decimal, with_slashes,
}
use repomesh.Chunking.Language.{Language, SymbolKind, language_for, has_symbols}
use repomesh.Chunking.Tree.{Nodes, no_nodes, then_node, Tree, Symbol, candidates, children_of, sort}
use repomesh.Chunking.Windows.{Window, line_windows}

pub record Tools : Type 0 where
  pub sha256 : Text → Text
  pub uuid5 : Text → Text
  pub dumps : List Text → Text
  pub is_import : Text → Bool
  pub parse : Language → Text → Option Tree

pub data Strategy : Type 0 where
  tree_sitter tree_sitter_split line_fallback : Strategy

pub record CodeChunk : Type 0 where
  pub id : Text
  pub repository_id : Text
  pub commit_sha : Text
  pub file_path : Text
  pub language : Language
  pub symbol_name : Option Text
  pub symbol_kind : Option SymbolKind
  pub start_line : ℕ
  pub end_line : ℕ
  pub content : Text
  pub content_sha256 : Text
  pub imports_json : Text
  pub embedding_model : Text
  pub embedding_version : Text
  pub chunking_strategy : Strategy
  pub vector_json : Option Text

pub record CodeChunker : Type 0 where
  pub max_lines : ℕ
  pub fallback_lines : ℕ
  pub overlap : ℕ

-- The arguments of `chunk`.
pub record Source : Type 0 where
  pub repository_id : Text
  pub commit_sha : Text
  pub file_path : Text
  pub content : Text
  pub embedding_model : Text
  pub embedding_version : Text

unfoldable pub drop : ℕ → List Text → List Text
drop zero lines = lines
drop (suc n) [] = []
drop (suc n) (line ∷ lines) = drop n lines

-- lines[start - 1 : end], from a start of at least 1
unfoldable pub slice : ℕ → ℕ → List Text → List Text
unfolding drop
slice start stop lines = take (stop - (start - 1)) (drop (start - 1) lines)

unfoldable pub imports_of : (Text → Bool) → List Text → List Text
imports_of is_import [] = []
imports_of is_import (line ∷ lines) =
    let rest = imports_of is_import lines in
    if is_import line then (rstrip (lstrip line) ∷ rest) else rest

abbrev colon : Text
colon = b':' ∷ []

unfoldable pub identity : Source → ℕ → ℕ → Text → Text
unfolding decimal
identity s start stop hash =
    s.repository_id
    ++ colon
    ++ s.file_path
    ++ colon
    ++ decimal start
    ++ colon
    ++ decimal stop
    ++ colon
    ++ hash

unfoldable pub make_chunk :
    Tools → Source → Language → Strategy → Option Text → Option SymbolKind → Window → CodeChunk
unfolding slice imports_of identity
make_chunk tools s language strategy name kind (start, stop) =
    let selected = rstrip (join (slice start stop (split_lines s.content))) in
    let hash = tools.sha256 selected in
    let imports = imports_of tools.is_import (map drop_ends (split_lines selected)) in
    record {
      id = tools.uuid5 (identity s start stop hash);
      repository_id = s.repository_id;
      commit_sha = s.commit_sha;
      file_path = with_slashes s.file_path;
      language = language;
      symbol_name = name;
      symbol_kind = kind;
      start_line = start;
      end_line = stop;
      content = selected;
      content_sha256 = hash;
      imports_json = tools.dumps (take 50 imports);
      embedding_model = s.embedding_model;
      embedding_version = s.embedding_version;
      chunking_strategy = strategy;
      vector_json = none;
    }

abbrev pub is_empty : Nodes → Bool
is_empty no_nodes = true
is_empty (then_node x rest) = false

module _ (tools : Tools) (c : CodeChunker) (s : Source) (language : Language) where
  -- _line_windows
  unfoldable pub window_chunks : ℕ → ℕ → Option Text → Option SymbolKind → Strategy → List CodeChunk
  unfolding make_chunk line_windows
  window_chunks first last name kind strategy =
      map (make_chunk tools s language strategy name kind)
        (line_windows c.fallback_lines c.overlap first last)

  -- _fallback_chunks
  unfoldable pub fallback_chunks : List CodeChunk
  unfolding window_chunks
  fallback_chunks = window_chunks 1 (max 1 (length (split_lines s.content))) none none line_fallback

  -- The chunks of one candidate: windows if it is longer than max_lines.
  unfoldable pub symbol_chunks : Symbol → List CodeChunk
  unfolding window_chunks
  symbol_chunks x =
      if ltb (c.max_lines + x.first) (x.last + 1)
      then window_chunks x.first x.last x.name (some x.kind) tree_sitter_split
      else (make_chunk tools s language tree_sitter x.name (some x.kind) (x.first, x.last) ∷ [])

  unfoldable pub all_chunks : List Symbol → List CodeChunk
  unfolding symbol_chunks
  all_chunks [] = []
  all_chunks (x ∷ xs) = symbol_chunks x ++ all_chunks xs

  -- _tree_sitter_chunks, `none` where the parser raises.
  unfoldable pub tree_sitter_chunks : Option (List CodeChunk)
  unfolding all_chunks candidates sort
  tree_sitter_chunks = elim (tools.parse language s.content) [
    | none ↦ none
    | some tree ↦
        if tree.has_error && is_empty (children_of tree.root)
        then some []
        else some (all_chunks (sort (candidates language tree.root)))
  ]

  abbrev pub or_fallback : Option (List CodeChunk) → List CodeChunk
  or_fallback none = fallback_chunks
  or_fallback (some []) = fallback_chunks
  or_fallback (some (x ∷ xs)) = x ∷ xs

unfoldable pub chunk : Tools → CodeChunker → Source → List CodeChunk
unfolding language_for tree_sitter_chunks
chunk tools c s =
    let language = language_for s.file_path in
    if has_symbols language
    then or_fallback tools c s language (tree_sitter_chunks tools c s language)
    else fallback_chunks tools c s language
