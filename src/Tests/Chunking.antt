-- ===== src/Tests/Chunking.antt =====
-- A chunker with windows of three lines, and a text of five lines.
use repomesh.Prelude.{◌≡◌, refl, false, none, some, [], ◌∷◌, inr, arith, All, length, ◌≤◌}
use repomesh.Chunking.Texts.{Text, join, split_lines, join-split_lines, decimal, suffix}
use repomesh.Chunking.Language.{
  language_for, symbol_kind, function, class, python, function_definition, identifier, other,
  class_definition,
}
use repomesh.Chunking.Tree.{Node, node, absent, present, no_nodes, then_node, candidates}
use repomesh.Chunking.Walk.{symbols, candidates-symbols}
use repomesh.Chunking.Windows.{line_windows}
use repomesh.Chunking.Cover.{Covers, Fits, line_windows-Covers, line_windows-Fits}
use repomesh.Chunking.Chunker.{Tools, CodeChunker, Source, chunk}
use repomesh.Chunking.Sizes.{Bounded, chunk-Bounded}
use repomesh.Chunking.Whole.{Shows, chunk-Shows}

abbrev pub tools : Tools
tools = record {
  sha256 = λ t. t;
  uuid5 = λ t. t;
  dumps = join;
  is_import = λ t. false;
  parse = λ language t. none;
}

abbrev pub chunker : CodeChunker
chunker = record { max_lines = 4; fallback_lines = 3; overlap = 1 }

abbrev five_lines : Text
five_lines = b'a' ∷ 10 ∷ b'b' ∷ 13 ∷ 10 ∷ b'c' ∷ 13 ∷ b'd' ∷ 10 ∷ b'e' ∷ []

abbrev pub file : Source
file = record {
  repository_id = b'r' ∷ [];
  commit_sha = [];
  file_path = b's' ∷ b'/' ∷ b'a' ∷ b'.' ∷ b'P' ∷ b'y' ∷ [];
  content = five_lines;
  embedding_model = [];
  embedding_version = [];
}

file-python : language_for file.file_path ≡ python
unfolding language_for suffix
file-python = refl

five :
    split_lines five_lines
    ≡ (b'a' ∷ 10 ∷ [])
      ∷ (b'b' ∷ 13 ∷ 10 ∷ [])
      ∷ (b'c' ∷ 13 ∷ [])
      ∷ (b'd' ∷ 10 ∷ [])
      ∷ (b'e' ∷ [])
      ∷ []
unfolding split_lines
five = refl

lines_rejoined : join (split_lines five_lines) ≡ five_lines
lines_rejoined = join-split_lines five_lines

decimal_80 : decimal 180 ≡ b'1' ∷ b'8' ∷ b'0' ∷ []
unfolding decimal
decimal_80 = refl

-- Two windows that share line 3.
two_windows : line_windows 3 1 1 5 ≡ (1, 3) ∷ (3, 5) ∷ []
unfolding line_windows
two_windows = refl

line_windows-Covers_example : Covers 4 (line_windows 3 1 1 5)
line_windows-Covers_example =
    line_windows-Covers 3 1 1 5 4 (omega arith) (omega arith) (omega arith)

line_windows-Fits_example : All (Fits 3 1 5) (line_windows 3 1 1 5)
line_windows-Fits_example = line_windows-Fits 3 1 1 5 (omega arith)

abbrev method : Node
method =
    node function_definition 2 3 []
      (present (node identifier 2 2 (b'f' ∷ []) absent absent no_nodes)) absent no_nodes

abbrev tree : Node
tree =
    node other 0 9 [] absent absent
      (then_node (node class_definition 1 5 [] absent absent (then_node method no_nodes)) no_nodes)

found :
    candidates python tree
    ≡ record { first = 2; last = 6; name = none; kind = class }
      ∷ record { first = 3; last = 4; name = some (b'f' ∷ []); kind = function }
      ∷ []
unfolding candidates symbol_kind
found = refl

candidates-symbols_example : candidates python tree ≡ symbols python tree
candidates-symbols_example = candidates-symbols python tree

chunk-Bounded_example : All (Bounded chunker) (chunk tools chunker file)
chunk-Bounded_example = chunk-Bounded tools chunker file

file_length : 4 ≤ length (split_lines file.content)
unfolding split_lines
file_length = omega arith

chunk-Shows_example : Shows 4 (chunk tools chunker file)
chunk-Shows_example =
    chunk-Shows tools chunker file 4 (inr refl) (omega arith) (omega arith) file_length
