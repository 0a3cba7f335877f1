-- ===== src/Coordination/Claims/Order.antt =====
-- The candidate of a claim: a due job, and the first of them in the query's order.
use repomesh.Prelude.{
  ℕ, ◌≡◌, Bool, true, false, Option, none, some, List, [], ◌∷◌, arith, Bool-cases, Option-cases,
  inl, inr, All,
}
use repomesh.Table.Finds.{Found}
use repomesh.Coordination.Schema.{Job}
use repomesh.Coordination.Claims.{
  then_by, by_priority, by_available_at, by_created_at, by_id, is_before, earlier, consider,
  best_of,
}

-- A strict order in which "neither comes first" is an equivalence.
pub record IsOrder (f : Job → Job → Bool) : Type 0 where
  pub asym : (a b : Job) → f a b ≡ true → f b a ≡ false
  pub negative : (a b c : Job) → f a b ≡ false → f b c ≡ false → f a c ≡ false

then_by-IsOrder : {f g : Job → Job → Bool} → IsOrder f → IsOrder g → IsOrder (then_by f g)
then_by-IsOrder {f} {g} u v = record {
  asym = λ a b h. ground (arith, u.asym a b, u.asym b a, v.asym a b);
  negative = λ a b c h k. ground (
    arith,
    u.negative a b c,
    u.negative c b a,
    u.negative b c a,
    u.negative c a b,
    v.negative a b c,
    u.asym a b,
    u.asym b c,
    u.asym a c,
  );
}

by_priority-IsOrder : IsOrder by_priority
by_priority-IsOrder = record { asym = λ a b h. ground arith; negative = λ a b c h k. ground arith }

by_available_at-IsOrder : IsOrder by_available_at
by_available_at-IsOrder = record {
  asym = λ a b h. ground arith;
  negative = λ a b c h k. ground arith;
}

by_created_at-IsOrder : IsOrder by_created_at
by_created_at-IsOrder = record {
  asym = λ a b h. ground arith;
  negative = λ a b c h k. ground arith;
}

by_id-IsOrder : IsOrder by_id
by_id-IsOrder = record { asym = λ a b h. ground arith; negative = λ a b c h k. ground arith }

pub is_before-IsOrder : IsOrder is_before
unfolding is_before
is_before-IsOrder =
    then_by-IsOrder by_priority-IsOrder (
      then_by-IsOrder by_available_at-IsOrder (then_by-IsOrder by_created_at-IsOrder by_id-IsOrder))

is_before_irrefl : (a : Job) → is_before a a ≡ false
is_before_irrefl a = ground (arith, is_before-IsOrder.asym a a)

module _ (p : Job → Bool) (row : ℕ → Option Job) where
  consider-Found :
      (k : ℕ) (rest : Option Job) (j : Job)
      → consider p (row k) rest ≡ some j
      → (rest ≡ some j → Found p row j)
      → Found p row j
  unfolding earlier
  consider-Found k rest j h later = elim (Option-cases (row k)) [
    | inl gone ↦ later (ground arith)
    | inr (x, there) ↦ elim (Bool-cases (p x)) [
      | inl passes ↦ elim (Option-cases rest) [
        | inl alone ↦ record { key = k; at_key = ground arith; passes = ground arith }
        | inr (b, more) ↦ elim (Bool-cases (is_before b x)) [
          | inl behind ↦ later (ground arith)
          | inr ahead ↦ record { key = k; at_key = ground arith; passes = ground arith }
        ]
      ]
      | inr fails ↦ later (ground arith)
    ]
  ]

  pub best_of-Found : (ks : List ℕ) (j : Job) → best_of p row ks ≡ some j → Found p row j
  unfolding best_of
  best_of-Found [] j h = absurd (ground arith)
  best_of-Found (k ∷ ks) j h = consider-Found k (best_of p row ks) j h (best_of-Found ks j)

  -- No row under the keys that passes the test comes before `j`.
  abbrev pub NoneBefore : Job → ℕ → Type 0
  NoneBefore j k = (x : Job) → row k ≡ some x → p x ≡ true → is_before x j ≡ false

  -- No row under the keys passes the test.
  abbrev pub NonePasses : ℕ → Type 0
  NonePasses k = (x : Job) → row k ≡ some x → p x ≡ false

  pub best_of-none : (ks : List ℕ) → best_of p row ks ≡ none → All NonePasses ks
  unfolding best_of earlier
  best_of-none [] h = tt
  best_of-none (k ∷ ks) h = (λ x at. ground arith, best_of-none ks (ground arith))

  NoneBefore-weaken :
      (b j : Job)
      → is_before b j ≡ false
      → (ks : List ℕ) → All (NoneBefore b) ks
      → All (NoneBefore j) ks
  NoneBefore-weaken b j h [] all = tt
  NoneBefore-weaken b j h (k ∷ ks) all = (
    λ x at passes. is_before-IsOrder.negative x b j (all.0 x at passes) h,
    NoneBefore-weaken b j h ks all.1,
  )

  NoneBefore-vacuous : (j : Job) (ks : List ℕ) → All NonePasses ks → All (NoneBefore j) ks
  NoneBefore-vacuous j [] all = tt
  NoneBefore-vacuous j (k ∷ ks) all =
      (λ x at passes. ground (arith, all.0 x at), NoneBefore-vacuous j ks all.1)

  first_of_two :
      (k : ℕ) (ks : List ℕ) (j : Job)
      → consider p (row k) (best_of p row ks) ≡ some j
      → ((b : Job) → best_of p row ks ≡ some b → All (NoneBefore b) ks)
      → All (NoneBefore j) (k ∷ ks)
  unfolding earlier
  first_of_two k ks j h rest = elim (Option-cases (row k)) [
    | inl gone ↦ (λ x at passes. ground arith, rest j (ground arith))
    | inr (x, there) ↦ elim (Bool-cases (p x)) [
      | inr fails ↦ (λ y at passes. ground arith, rest j (ground arith))
      | inl passes ↦ elim (Option-cases (best_of p row ks)) [
        | inl alone ↦ (
          λ y at ok. ground (arith, is_before_irrefl x),
          NoneBefore-vacuous j ks (best_of-none ks alone),
        )
        | inr (b, more) ↦ elim (Bool-cases (is_before b x)) [
          | inl behind ↦
              (λ y at ok. ground (arith, is_before-IsOrder.asym b x behind), rest j (ground arith))
          | inr ahead ↦ (
            λ y at ok. ground (arith, is_before_irrefl x),
            NoneBefore-weaken b j (ground arith) ks (rest b more),
          )
        ]
      ]
    ]
  ]

  -- The chosen row comes no later than any row that passes.
  pub best_of-first : (ks : List ℕ) (j : Job) → best_of p row ks ≡ some j → All (NoneBefore j) ks
  unfolding best_of
  best_of-first [] j h = tt
  best_of-first (k ∷ ks) j h = first_of_two k ks j h (best_of-first ks)
