-- ===== src/Chunking/Tree.antt =====
-- chunking.py: the symbols that _tree_sitter_chunks finds in the tree of a parsed file. A node has
-- its kind, the rows of its start and end, the text it spans, its fields `name` and `declarator`,
-- and its named children, which are what the code reads of tree-sitter's nodes.
use repomesh.Prelude.{
  ℕ, zero, suc, ◌+◌, Bool, true, false, ◌&&◌, Option, none, some, List, [], ◌∷◌, ◌++◌, ltb, ◌==◌,
  if◌then◌else◌,
}
use repomesh.Chunking.Texts.{Text}
use repomesh.Chunking.Language

mutual
  pub data Node : Type 0 where
    node : Language.NodeType → ℕ → ℕ → Text → Field → Field → Nodes → Node

  pub data Field : Type 0 where
    absent : Field
    present : Node → Field

  pub data Nodes : Type 0 where
    no_nodes : Nodes
    then_node : Node → Nodes → Nodes

-- A tree, with root_node.has_error.
pub record Tree : Type 0 where
  pub has_error : Bool
  pub root : Node

pub record Symbol : Type 0 where
  pub first : ℕ
  pub last : ℕ
  pub name : Option Text
  pub kind : Language.SymbolKind

abbrev is_identifier : Language.NodeType → Bool
is_identifier Language.identifier = true
is_identifier Language.field_identifier = true
is_identifier Language.qualified_identifier = true
is_identifier _ = false

abbrev or_else : Option Text → Option Text → Option Text
or_else (some t) later = some t
or_else none later = later

unfoldable mutual
  -- _find_identifier, with the text of the node that it returns.
  pub find_identifier : Node → Option Text
  find_identifier (node t a b content f g children) =
      if is_identifier t then some content else find_identifier_in children

  find_identifier_in : Nodes → Option Text
  find_identifier_in no_nodes = none
  find_identifier_in (then_node x rest) = or_else (find_identifier x) (find_identifier_in rest)

abbrev is_cpp : Language.Language → Bool
is_cpp Language.cpp = true
is_cpp _ = false

abbrev node_text : Node → Text
node_text (node t a b content f g children) = content

-- The name of a symbol: its field `name`, or in C++ the identifier in its declarator.
unfoldable pub symbol_name : Language.Language → Field → Field → Option Text
unfolding find_identifier
symbol_name language (present x) declarator = some (node_text x)
symbol_name language absent absent = none
symbol_name language absent (present d) = if is_cpp language then find_identifier d else none

abbrev symbol_of : ℕ → ℕ → Option Text → Option Language.SymbolKind → List Symbol
symbol_of a b name none = []
symbol_of a b name (some kind) =
    record { first = a + 1; last = b + 1; name = name; kind = kind } ∷ []

-- The candidate that one node appends, if its kind is a symbol's.
unfoldable pub own_symbol : Language.Language → Node → List Symbol
unfolding symbol_name
own_symbol language (node t a b content f g children) =
    symbol_of a b (symbol_name language f g) (Language.symbol_kind language t)

abbrev pub children_of : Node → Nodes
children_of (node t a b content f g children) = children

unfoldable pub onto : Nodes → Nodes → Nodes
onto no_nodes stack = stack
onto (then_node x rest) stack = then_node x (onto rest stack)

-- `while stack`, the top of the stack first: pop a node, push its children in their order.
unfoldable pub walk : ℕ → Language.Language → Nodes → List Symbol
unfolding own_symbol onto
walk zero language stack = []
walk (suc n) language no_nodes = []
walk (suc n) language (then_node x rest) =
    own_symbol language x ++ walk n language (onto (children_of x) rest)

unfoldable mutual
  pub size : Node → ℕ
  size (node t a b content f g children) = suc (size_of children)

  pub size_of : Nodes → ℕ
  size_of no_nodes = 0
  size_of (then_node x rest) = size x + size_of rest

-- The walk from the root; it visits every node once.
unfoldable pub candidates : Language.Language → Node → List Symbol
unfolding walk size
candidates language root = walk (size root) language (then_node root no_nodes)

-- The key of the sort, (start, end).
unfoldable pub precedes : Symbol → Symbol → Bool
precedes a b = if ltb a.first b.first then true else (a.first == b.first && ltb a.last b.last)

unfoldable pub insert_symbol : Symbol → List Symbol → List Symbol
unfolding precedes
insert_symbol x [] = x ∷ []
insert_symbol x (y ∷ ys) =
    let rest = insert_symbol x ys in if precedes y x then (y ∷ rest) else (x ∷ y ∷ ys)

-- candidates.sort(…), which is stable.
unfoldable pub sort : List Symbol → List Symbol
unfolding insert_symbol
sort [] = []
sort (x ∷ xs) = insert_symbol x (sort xs)
