-- ===== src/Table/Finds.antt =====
-- What a scan of a table finds, and when it finds nothing.
use repomesh.Prelude.{
  ℕ, ◌≡◌, Bool, true, Option, none, some, is_some, List, [], ◌∷◌, arith, Bool-cases, Option-cases,
  inl, inr, ◌==◌, ◌++◌, if◌then◌else◌,
}
use repomesh.Table.{Table, find_in, find_where, first_of_rows, insert, id_eq}

-- A row of the table at which the test passes.
pub record Found {K R : Type 0} (p : R → Bool) (row : K → Option R) (r : R) : Type 0 where
  pub key : K
  pub at_key : row key ≡ some r
  pub passes : p r ≡ true

module _ {K R : Type 0} (p : R → Bool) (row : K → Option R) where
  Found-first :
      (k : K) (rest : Option R) (r : R)
      → first_of_rows p (row k) rest ≡ some r
      → (rest ≡ some r → Found p row r)
      → Found p row r
  Found-first k rest r h later = elim (Option-cases (row k)) [
    | inl gone ↦ later (ground arith)
    | inr (x, there) ↦ elim (Bool-cases (p x)) [
      | inl passes ↦ record { key = k; at_key = ground arith; passes = ground arith }
      | inr fails ↦ later (ground arith)
    ]
  ]

  find_in-Found : (ks : List K) (r : R) → find_in p row ks ≡ some r → Found p row r
  unfolding find_in
  find_in-Found [] r h = absurd (ground arith)
  find_in-Found (k ∷ ks) r h = Found-first k (find_in p row ks) r h (find_in-Found ks r)

pub find_where-Found :
    {K R : Type 0} (p : R → Bool) (t : Table K R) (r : R)
    → find_where p t ≡ some r
    → Found p t.row r
unfolding find_where
find_where-Found p t r h = find_in-Found p t.row t.keys r h

module _ {R : Type 0} (p : R → Bool) (row : ℕ → Option R) (k : ℕ) (r : R)
    (passes : p r ≡ true) where
  abbrev row_with : ℕ → Option R
  row_with j = if j == k then some r else row j

  find_in_last :
      (ks : List ℕ) → find_in p row ks ≡ none → find_in p row_with (ks ++ k ∷ []) ≡ some r
  unfolding find_in
  find_in_last [] h = ground arith
  find_in_last (x ∷ xs) h = elim (Bool-cases (x == k)) [
    | inl here ↦ ground arith
    | inr there ↦ elim (Option-cases (row x)) [
      | inl gone ↦ ground (arith, find_in_last xs)
      | inr (y, at) ↦ ground (arith, find_in_last xs)
    ]
  ]

module _ {R : Type 0} (p : R → Bool) (row : ℕ → Option R) (k : ℕ) (r : R) (new : row k ≡ none) where
  abbrev row_after : ℕ → Option R
  row_after j = if j == k then some r else row j

  find_in_kept :
      (ks : List ℕ)
      → is_some (find_in p row ks) ≡ true
      → is_some (find_in p row_after (ks ++ k ∷ [])) ≡ true
  unfolding find_in
  find_in_kept [] h = absurd (ground arith)
  find_in_kept (x ∷ xs) h = elim (Bool-cases (x == k)) [
    | inl here ↦ elim (Bool-cases (p r)) [
      | inl passes ↦ ground arith
      | inr fails ↦ ground (arith, find_in_kept xs)
    ]
    | inr there ↦ elim (Option-cases (row x)) [
      | inl gone ↦ ground (arith, find_in_kept xs)
      | inr (y, at) ↦ elim (Bool-cases (p y)) [
        | inl passes ↦ ground arith
        | inr fails ↦ ground (arith, find_in_kept xs)
      ]
    ]
  ]

-- A scan that found a row still finds one after an insertion at a new key.
pub find_where-insert_some :
    {R : Type 0} (p : R → Bool) (t : Table ℕ R) (k : ℕ) (r : R)
    → t.row k ≡ none
    → is_some (find_where p t) ≡ true
    → is_some (find_where p (insert k r t)) ≡ true
unfolding find_where insert
find_where-insert_some p t k r new h = find_in_kept p t.row k r new t.keys h

-- A scan that found nothing finds a new row that passes.
pub find_where-insert :
    {R : Type 0} (p : R → Bool) (t : Table ℕ R) (k : ℕ) (r : R)
    → find_where p t ≡ none
    → p r ≡ true
    → find_where p (insert k r t) ≡ some r
unfolding find_where insert
find_where-insert p t k r h passes = find_in_last p t.row k r passes t.keys h
