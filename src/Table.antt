-- ===== src/Table.antt =====
-- A PostgreSQL table with a primary key: its keys in the order of insertion, and the row at a key.
pub mod Finds
use repomesh.Prelude.{
  ℕ, ◌≡◌, ◌↔◌, Bool, true, ◌&&◌, Option, none, some, List, [], ◌∷◌, ◌++◌, arith, ◌==◌, ==_iff,
  if◌then◌else◌,
}

-- Key columns are compared by a test that decides equality.
pub record Eq (K : Type 0) : Type 0 where
  pub beq : K → K → Bool
  pub beq_iff : (a b : K) → (beq a b ≡ true) ↔ (a ≡ b)

instance abbrev pub id_eq : Eq ℕ
id_eq = record { beq = ◌==◌; beq_iff = ==_iff }

abbrev same_pair : ℕ × ℕ → ℕ × ℕ → Bool
same_pair (a, b) (c, d) = a == c && b == d

pub same_pair_iff : (p q : ℕ × ℕ) → (same_pair p q ≡ true) ↔ (p ≡ q)
same_pair_iff (a, b) (c, d) = ground arith

instance abbrev pub pair_eq : Eq (ℕ × ℕ)
pair_eq = record { beq = same_pair; beq_iff = same_pair_iff }

pub record Table (K R : Type 0) : Type 0 where
  pub keys : List K
  pub row : K → Option R

abbrev pub update_row {ℓ} : {R : Type ℓ} → (R → Bool) → (R → R) → Option R → Option R
update_row p f none = none
update_row p f (some r) = some (if p r then f r else r)

module _ {K R : Type 0} where
  unfoldable pub empty : Table K R
  empty = record { keys = []; row = λ k. none }

  -- UPDATE … SET … WHERE p
  unfoldable pub update_where : (R → Bool) → (R → R) → Table K R → Table K R
  update_where p f t = record t { row = λ k. update_row p f (t.row k) }

module _ {K R : Type 0} ⦃e : Eq K⦄ where
  -- UPDATE … SET … WHERE the key is `k`, the row being there
  unfoldable pub put : K → R → Table K R → Table K R
  put k r t = record t { row = λ j. if e.beq j k then some r else t.row j }

  -- UPDATE … SET … WHERE the key is `k` AND p
  unfoldable pub update_at : K → (R → Bool) → (R → R) → Table K R → Table K R
  update_at k p f t = record t {
    row = λ j. if e.beq j k then update_row p f (t.row j) else t.row j;
  }

  -- INSERT, the key being new
  unfoldable pub insert : K → R → Table K R → Table K R
  unfolding put
  insert k r t = put k r (record t { keys = t.keys ++ k ∷ [] })

  abbrev insert_new : K → R → Table K R → Option R → Table K R
  insert_new k r t none = insert k r t
  insert_new k r t (some old) = t

  -- INSERT … ON CONFLICT DO NOTHING
  unfoldable pub ensure : K → R → Table K R → Table K R
  unfolding insert
  ensure k r t = insert_new k r t (t.row k)

-- SELECT * … WHERE p, the first of the rows in the order of insertion
abbrev pub first_of_rows {ℓ} : {R : Type ℓ} → (R → Bool) → Option R → Option R → Option R
first_of_rows p none rest = rest
first_of_rows p (some r) rest = if p r then some r else rest

module _ {K R : Type 0} where
  unfoldable pub find_in : (R → Bool) → (K → Option R) → List K → Option R
  find_in p row [] = none
  find_in p row (k ∷ ks) = first_of_rows p (row k) (find_in p row ks)

  unfoldable pub find_where : (R → Bool) → Table K R → Option R
  find_where p t = find_in p t.row t.keys
