-- ===== src/Chunking/Walk.antt =====
-- chunking.py: what the walk of _tree_sitter_chunks collects. What holds of all candidates holds of them
-- sorted.
use repomesh.Prelude.{
  ℕ, zero, suc, ◌+◌, ◌≤◌, ◌≡◌, ◌∙◌, sym, refl, ap, List, [], ◌∷◌, ◌++◌, arith, Bool-cases, inl, inr,
  All,
}
use repomesh.Chunking.Language.{Language}
use repomesh.Chunking.Tree.{
  Node, Nodes, node, no_nodes, then_node, Symbol, own_symbol, children_of, onto, walk, size,
  size_of, candidates, precedes, insert_symbol, sort,
}

unfoldable mutual
  -- The symbols of a tree in document order: a node's own, then those of its children.
  pub symbols : Language → Node → List Symbol
  symbols language (node t a b content f g children) =
      own_symbol language (node t a b content f g children) ++ symbols_of language children

  pub symbols_of : Language → Nodes → List Symbol
  symbols_of language no_nodes = []
  symbols_of language (then_node x rest) = symbols language x ++ symbols_of language rest

append_assoc : (xs ys zs : List Symbol) → (xs ++ ys) ++ zs ≡ xs ++ (ys ++ zs)
append_assoc [] ys zs = refl
append_assoc (x ∷ xs) ys zs = ap (λ r. x ∷ r) (append_assoc xs ys zs)

append_nil : (xs : List Symbol) → xs ++ [] ≡ xs
append_nil [] = refl
append_nil (x ∷ xs) = ap (λ r. x ∷ r) (append_nil xs)

size_of-onto : (xs ys : Nodes) → size_of (onto xs ys) ≡ size_of xs + size_of ys
unfolding size_of onto
size_of-onto no_nodes ys = omega arith
size_of-onto (then_node x rest) ys = omega (arith, size_of-onto rest ys)

symbols_of-onto :
    (language : Language) (xs ys : Nodes)
    → symbols_of language (onto xs ys) ≡ symbols_of language xs ++ symbols_of language ys
unfolding symbols onto
symbols_of-onto language no_nodes ys = refl
symbols_of-onto language (then_node x rest) ys =
    ap (λ r. symbols language x ++ r) (symbols_of-onto language rest ys)
    ∙ sym (append_assoc (symbols language x) (symbols_of language rest) (symbols_of language ys))

symbols_parts :
    (language : Language) (x : Node)
    → symbols language x ≡ own_symbol language x ++ symbols_of language (children_of x)
unfolding symbols
symbols_parts language (node t a b content f g children) = refl

size_parts : (x : Node) → size x ≡ suc (size_of (children_of x))
unfolding size
size_parts (node t a b content f g children) = refl

walk-symbols_of :
    (language : Language) (n : ℕ) (stack : Nodes)
    → size_of stack ≤ n
    → walk n language stack ≡ symbols_of language stack
unfolding walk size symbols
walk-symbols_of language zero no_nodes h = refl
walk-symbols_of language zero (then_node x rest) h = absurd (omega (arith, h, size_parts x))
walk-symbols_of language (suc n) no_nodes h = refl
walk-symbols_of language (suc n) (then_node x rest) h =
    ap (λ r. own_symbol language x ++ r)
      (walk-symbols_of language n (onto (children_of x) rest)
          (omega (arith, h, size_parts x, size_of-onto (children_of x) rest))
        ∙ symbols_of-onto language (children_of x) rest)
    ∙ sym (
        append_assoc (own_symbol language x) (symbols_of language (children_of x))
          (symbols_of language rest))
    ∙ ap (λ r. r ++ symbols_of language rest) (sym (symbols_parts language x))

-- The loop over the stack ends, and collects the symbols of the whole tree in document order.
pub candidates-symbols :
    (language : Language) (root : Node) → candidates language root ≡ symbols language root
unfolding candidates size symbols
candidates-symbols language root =
    walk-symbols_of language (size root) (then_node root no_nodes) (omega arith)
    ∙ append_nil (symbols language root)

All-insert_symbol :
    (P : Symbol → Type 0) (x : Symbol) (xs : List Symbol)
    → P x
    → All P xs
    → All P (insert_symbol x xs)
unfolding insert_symbol
All-insert_symbol P x [] p all = (p, tt)
All-insert_symbol P x (y ∷ ys) p all = elim (Bool-cases (precedes y x)) [
  | inl t ↦ rw t (all.0, All-insert_symbol P x ys p all.1)
  | inr f ↦ rw f (p, all)
]

pub All-sort : (P : Symbol → Type 0) (xs : List Symbol) → All P xs → All P (sort xs)
unfolding sort
All-sort P [] all = tt
All-sort P (x ∷ xs) all = All-insert_symbol P x (sort xs) all.0 (All-sort P xs all.1)
