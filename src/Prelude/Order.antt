-- ===== src/Prelude/Order.antt =====
-- What sorting and filtering keep: the order of the result and the entries.
use Prim.Native.Nat.{ℕ, zero, suc}
use mathlib.Core.Path.{◌≡◌, refl, ap}
use mathlib.Core.Logic.{◌⊎◌, inl, inr}
use mathlib.Core.Bool.{Bool, true, false}
use mathlib.Core.List.{List, [], ◌∷◌, map}
use repomesh.Prelude.Tests.{Bool-cases}
use repomesh.Prelude.Lists.{length, take, All}
use repomesh.Prelude.Sorting.{drop, filter, insert_by, sort_by, All-insert_by, All-take}

-- No entry comes before an earlier one.
abbrev pub IsSortedBy {ℓ} : {A : Type ℓ} → (A → A → Bool) → List A → Type 0
IsSortedBy before [] = Unit
IsSortedBy before (x ∷ xs) = All (λ y. before y x ≡ false) xs × IsSortedBy before xs

-- What a strict weak order gives of its test.
pub record IsOrder {ℓ} {A : Type ℓ} (before : A → A → Bool) : Type ℓ where
  pub asym : (a b : A) → before a b ≡ true → before b a ≡ false
  pub negative : (a b c : A) → before a b ≡ false → before b c ≡ false → before a c ≡ false

module _ {ℓ} {A : Type ℓ} (before : A → A → Bool) (o : IsOrder before) where
  None-before :
      (a b : A) (xs : List A)
      → before b a ≡ false
      → All (λ y. before y b ≡ false) xs
      → All (λ y. before y a ≡ false) xs
  None-before a b [] h all = tt
  None-before a b (x ∷ xs) h all = (o.negative x b a all.0 h, None-before a b xs h all.1)

  insert_by-IsSortedBy :
      (x : A) (xs : List A) → IsSortedBy before xs → IsSortedBy before (insert_by before x xs)
  unfolding insert_by
  insert_by-IsSortedBy x [] v = (tt, tt)
  insert_by-IsSortedBy x (y ∷ ys) v = elim (Bool-cases (before y x)) [
    | inl t ↦ rw t (
      All-insert_by (λ z. before z y ≡ false) before x ys (o.asym y x t) v.0,
      insert_by-IsSortedBy x ys v.1,
    )
    | inr f ↦ rw f ((f, None-before x y ys f v.0), v)
  ]

  pub sort_by-IsSortedBy : (xs : List A) → IsSortedBy before (sort_by before xs)
  unfolding sort_by
  sort_by-IsSortedBy [] = tt
  sort_by-IsSortedBy (x ∷ xs) = insert_by-IsSortedBy x (sort_by before xs) (sort_by-IsSortedBy xs)

-- A part of a sorted list is sorted.
module _ {ℓ} {A : Type ℓ} (before : A → A → Bool) where
  pub IsSortedBy-take : (n : ℕ) (xs : List A) → IsSortedBy before xs → IsSortedBy before (take n xs)
  unfolding take
  IsSortedBy-take zero xs v = tt
  IsSortedBy-take (suc n) [] v = tt
  IsSortedBy-take (suc n) (x ∷ xs) v =
      (All-take (λ y. before y x ≡ false) n xs v.0, IsSortedBy-take n xs v.1)

  pub IsSortedBy-drop : (n : ℕ) (xs : List A) → IsSortedBy before xs → IsSortedBy before (drop n xs)
  unfolding drop
  IsSortedBy-drop zero xs v = v
  IsSortedBy-drop (suc n) [] v = tt
  IsSortedBy-drop (suc n) (x ∷ xs) v = IsSortedBy-drop n xs v.1

pub take-length {ℓ} : {A : Type ℓ} (xs : List A) → take (length xs) xs ≡ xs
unfolding take
take-length [] = refl
take-length (x ∷ xs) = ap (λ l. x ∷ l) (take-length xs)

-- An entry of a list.
abbrev pub Occurs : {A : Type 0} → A → List A → Type 0
Occurs x [] = ⊥
Occurs x (y ∷ ys) = (x ≡ y) ⊎ Occurs x ys

module _ {A : Type 0} where
  Occurs-insert_by :
      (before : A → A → Bool) (x a : A) (xs : List A)
      → (x ≡ a) ⊎ Occurs x xs
      → Occurs x (insert_by before a xs)
  unfolding insert_by
  Occurs-insert_by before x a [] h = h
  Occurs-insert_by before x a (y ∷ ys) h = elim (Bool-cases (before y a)) [
    | inr f ↦ rw f h
    | inl t ↦ rw t (elim h [
      | inl new ↦ inr (Occurs-insert_by before x a ys (inl new))
      | inr (inl first) ↦ inl first
      | inr (inr later) ↦ inr (Occurs-insert_by before x a ys (inr later))
    ])
  ]

  pub Occurs-sort_by :
      (before : A → A → Bool) (x : A) (xs : List A) → Occurs x xs → Occurs x (sort_by before xs)
  unfolding sort_by
  Occurs-sort_by before x [] h = absurd h
  Occurs-sort_by before x (y ∷ ys) (inl here) =
      Occurs-insert_by before x y (sort_by before ys) (inl here)
  Occurs-sort_by before x (y ∷ ys) (inr there) =
      Occurs-insert_by before x y (sort_by before ys) (inr (Occurs-sort_by before x ys there))

  pub Occurs-filter :
      (p : A → Bool) (x : A) (xs : List A) → p x ≡ true → Occurs x xs → Occurs x (filter p xs)
  unfolding filter
  Occurs-filter p x [] h k = absurd k
  Occurs-filter p x (y ∷ ys) h (inl here) =
      let passes : p y ≡ true = rw here at h in rw passes (inl here)
  Occurs-filter p x (y ∷ ys) h (inr there) = elim (Bool-cases (p y)) [
    | inl t ↦ rw t (inr (Occurs-filter p x ys h there))
    | inr f ↦ rw f (Occurs-filter p x ys h there)
  ]

  pub All-Occurs : (xs : List A) → All (λ x. Occurs x xs) xs
  All-Occurs [] = tt
  All-Occurs (x ∷ xs) = (inl refl, step xs (All-Occurs xs))
    where
      step : (ys : List A) → All (λ y. Occurs y xs) ys → All (λ y. Occurs y (x ∷ xs)) ys
      step [] all = tt
      step (y ∷ ys) all = (inr all.0, step ys all.1)

  pub All-filter_both {κ} :
      (P : A → Type κ) (p : A → Bool) (xs : List A)
      → All P xs
      → All (λ x. P x × (p x ≡ true)) (filter p xs)
  unfolding filter
  All-filter_both P p [] all = tt
  All-filter_both P p (x ∷ xs) all = elim (Bool-cases (p x)) [
    | inl t ↦ rw t ((all.0, t), All-filter_both P p xs all.1)
    | inr f ↦ rw f (All-filter_both P p xs all.1)
  ]

module _ {A B : Type 0} (f : A → B) where
  pub Occurs-map : (x : A) (xs : List A) → Occurs x xs → Occurs (f x) (map f xs)
  unfolding map
  Occurs-map x [] h = absurd h
  Occurs-map x (y ∷ ys) (inl here) = inl (ap f here)
  Occurs-map x (y ∷ ys) (inr there) = inr (Occurs-map x ys there)

  pub All-map {μ ν} :
      (P : A → Type μ) (Q : B → Type ν)
      → ((x : A) → P x → Q (f x))
      → (xs : List A) → All P xs
      → All Q (map f xs)
  unfolding map
  All-map P Q step [] all = tt
  All-map P Q step (x ∷ xs) all = (step x all.0, All-map P Q step xs all.1)
