-- ===== src/Chunking/Language.antt =====
-- chunking.py: LANGUAGES, SYMBOL_NODES and language_for.
use repomesh.Prelude.{Bool, true, false, Option, none, some, List, [], ◌∷◌, if◌then◌else◌}
use repomesh.Chunking.Texts.{Text, suffix, lower, same_text}

pub data Language : Type 0 where
  python java javascript typescript cpp html css text : Language

abbrev languages : List (Text × Language)
languages =
    (b'.' ∷ b'p' ∷ b'y' ∷ [], python)
    ∷ (b'.' ∷ b'j' ∷ b'a' ∷ b'v' ∷ b'a' ∷ [], java)
    ∷ (b'.' ∷ b'j' ∷ b's' ∷ [], javascript)
    ∷ (b'.' ∷ b'j' ∷ b's' ∷ b'x' ∷ [], javascript)
    ∷ (b'.' ∷ b'm' ∷ b'j' ∷ b's' ∷ [], javascript)
    ∷ (b'.' ∷ b't' ∷ b's' ∷ [], typescript)
    ∷ (b'.' ∷ b't' ∷ b's' ∷ b'x' ∷ [], typescript)
    ∷ (b'.' ∷ b'c' ∷ b'p' ∷ b'p' ∷ [], cpp)
    ∷ (b'.' ∷ b'c' ∷ b'c' ∷ [], cpp)
    ∷ (b'.' ∷ b'c' ∷ b'x' ∷ b'x' ∷ [], cpp)
    ∷ (b'.' ∷ b'h' ∷ b'p' ∷ b'p' ∷ [], cpp)
    ∷ (b'.' ∷ b'h' ∷ [], cpp)
    ∷ (b'.' ∷ b'h' ∷ b't' ∷ b'm' ∷ b'l' ∷ [], html)
    ∷ (b'.' ∷ b'h' ∷ b't' ∷ b'm' ∷ [], html)
    ∷ (b'.' ∷ b'c' ∷ b's' ∷ b's' ∷ [], css)
    ∷ (b'.' ∷ b'm' ∷ b'd' ∷ [], text)
    ∷ (b'.' ∷ b't' ∷ b'o' ∷ b'm' ∷ b'l' ∷ [], text)
    ∷ (b'.' ∷ b'y' ∷ b'a' ∷ b'm' ∷ b'l' ∷ [], text)
    ∷ (b'.' ∷ b'y' ∷ b'm' ∷ b'l' ∷ [], text)
    ∷ (b'.' ∷ b'j' ∷ b's' ∷ b'o' ∷ b'n' ∷ [], text)
    ∷ []

abbrev lookup : List (Text × Language) → Text → Language
lookup [] key = text
lookup ((k, language) ∷ rest) key =
    let later = lookup rest key in if same_text k key then language else later

unfoldable pub language_for : Text → Language
unfolding lower same_text
language_for path = lookup languages (lower (suffix path))

-- The kinds of tree-sitter's nodes that the tables name; `other` is any other kind.
pub data NodeType : Type 0 where
  function_definition class_definition : NodeType
  class_declaration interface_declaration method_declaration constructor_declaration : NodeType
  function_declaration method_definition generator_function_declaration : NodeType
  type_alias_declaration enum_declaration : NodeType
  class_specifier struct_specifier namespace_definition : NodeType
  identifier field_identifier qualified_identifier : NodeType
  other : NodeType

pub data SymbolKind : Type 0 where
  function class interface method constructor type enum struct namespace : SymbolKind

abbrev python_kind : NodeType → Option SymbolKind
python_kind function_definition = some function
python_kind class_definition = some class
python_kind _ = none

abbrev java_kind : NodeType → Option SymbolKind
java_kind class_declaration = some class
java_kind interface_declaration = some interface
java_kind method_declaration = some method
java_kind constructor_declaration = some constructor
java_kind _ = none

abbrev javascript_kind : NodeType → Option SymbolKind
javascript_kind function_declaration = some function
javascript_kind method_definition = some method
javascript_kind class_declaration = some class
javascript_kind generator_function_declaration = some function
javascript_kind _ = none

abbrev typescript_kind : NodeType → Option SymbolKind
typescript_kind function_declaration = some function
typescript_kind method_definition = some method
typescript_kind class_declaration = some class
typescript_kind interface_declaration = some interface
typescript_kind type_alias_declaration = some type
typescript_kind enum_declaration = some enum
typescript_kind _ = none

abbrev cpp_kind : NodeType → Option SymbolKind
cpp_kind function_definition = some function
cpp_kind class_specifier = some class
cpp_kind struct_specifier = some struct
cpp_kind namespace_definition = some namespace
cpp_kind _ = none

-- SYMBOL_NODES[language].get(type)
unfoldable pub symbol_kind : Language → NodeType → Option SymbolKind
symbol_kind python t = python_kind t
symbol_kind java t = java_kind t
symbol_kind javascript t = javascript_kind t
symbol_kind typescript t = typescript_kind t
symbol_kind cpp t = cpp_kind t
symbol_kind html t = none
symbol_kind css t = none
symbol_kind text t = none

-- language in SYMBOL_NODES
abbrev pub has_symbols : Language → Bool
has_symbols html = false
has_symbols css = false
has_symbols text = false
has_symbols _ = true
