-- ===== src/Api/Evidence.antt =====
-- What an answer promises of its evidence.
use repomesh.Prelude.{
  ℕ, ◌+◌, ◌-◌, ◌≤◌, ◌≡◌, refl, sym, subst, ap, Bool, true, false, List, [], ◌∷◌, ◌++◌, length, map,
  take, drop, ltb, arith, append_nil, Bool-cases, inl, inr,
}
use repomesh.Chunking.Texts.{Text, rstrip}
use repomesh.Api.Answer.{
  Found, Citation, label, contexts_within, citation_of, starts_with, contains, has_label, spaced,
  sources, insufficient, with_sources, cited_text, answer, AnswerResponse, find_labels,
  remove_unverified,
}

starts_with-append : (a b : Text) → starts_with a (a ++ b) ≡ true
unfolding starts_with
starts_with-append [] b = refl
starts_with-append (c ∷ cs) b = ground (arith, starts_with-append cs b)

contains_first : (a b : Text) → contains a (a ++ b) ≡ true
unfolding contains
contains_first [] [] = refl
contains_first [] (c ∷ cs) = refl
contains_first (d ∷ ds) b = ground (arith, starts_with-append (d ∷ ds) b)

contains_later : (sub a t : Text) → contains sub t ≡ true → contains sub (a ++ t) ≡ true
unfolding contains
contains_later sub [] t h = h
contains_later sub (c ∷ cs) t h = ground (arith, contains_later sub cs t h)

contains-spaced : (l : Text) (ls : List Text) → contains l (spaced (l ∷ ls)) ≡ true
unfolding spaced
contains-spaced l [] =
    let e : contains l (l ++ []) ≡ true = contains_first l [] in rw (append_nil l) at e
contains-spaced l (m ∷ ls) = contains_first l (32 ∷ spaced (m ∷ ls))

has_label-with_sources :
    (l : Text) (ls : List Text) (t : Text) → has_label (l ∷ ls) (with_sources (l ∷ ls) t) ≡ true
unfolding take has_label
has_label-with_sources l ls t = elim (Bool-cases (has_label (l ∷ ls) t)) [
  | inl named ↦ rw named named
  | inr bare ↦
      let there : contains l (rstrip t ++ sources ++ spaced (l ∷ take 2 ls)) ≡ true =
        contains_later l (rstrip t ++ sources) (spaced (l ∷ take 2 ls))
          (contains-spaced l (take 2 ls)) in
      rw bare (ground (arith, there))
]

unfoldable pub total : List Found → ℕ
total [] = 0
total (x ∷ xs) = length x.content + total xs

-- The contexts are the first results, they fit the budget, and with the next result they would not.
pub record Fits (budget : ℕ) (results contexts : List Found) : Type 0 where
  pub first : contexts ≡ take (length contexts) results
  pub fits : total contexts ≤ budget
  pub next :
      (x : Found) (rest : List Found)
      → drop (length contexts) results ≡ x ∷ rest
      → ltb budget (total contexts + length x.content) ≡ true

contexts_within-Fits :
    (budget : ℕ) (results : List Found) → Fits budget results (contexts_within budget results)
unfolding contexts_within total take drop
contexts_within-Fits budget [] = record {
  first = refl;
  fits = ground arith;
  next = λ x rest h. absurd (ground arith);
}
contexts_within-Fits budget (y ∷ ys) = elim (Bool-cases (ltb budget (length y.content))) [
  | inl large ↦ rw large (record {
    first = refl;
    fits = ground arith;
    next = λ x rest h.
        let e : y ≡ x = ground (arith, h) in
        subst (λ z. ltb budget (0 + length z.content) ≡ true) e
          (let d : ltb budget (0 + length y.content) ≡ true = ground arith in d);
  })
  | inr fine ↦
      let ih = contexts_within-Fits (budget - length y.content) ys in
      rw fine (record {
        first = ap (λ l. y ∷ l) ih.first;
        fits = ground (arith, ih.fits);
        next = λ x rest h. ground (arith, ih.next x rest h);
      })
]

-- What holds of an answer to a question.
pub record IsGrounded (is_digit : ℕ → Bool) (generate : List Found → Text) (budget : ℕ)
    (results : List Found) (a : AnswerResponse) : Type 0 where
  pub contexts : List Found
  pub within : Fits budget results contexts
  pub cited : a.citations ≡ map citation_of contexts
  pub generated : a.answer ≡ cited_text is_digit (map label a.citations) (generate contexts)
  pub unchanged : a.chunks ≡ results
  pub named :
      (c : Citation) (cs : List Citation)
      → a.citations ≡ c ∷ cs
      → has_label (map label a.citations) a.answer ≡ true
  pub empty : a.citations ≡ [] → (a.answer ≡ insufficient) × (a.evidence_sufficient ≡ false)

has_label-cited_text :
    (is_digit : ℕ → Bool) (labels : List Text) (l : Text) (ls : List Text) (t : Text)
    → labels ≡ l ∷ ls
    → has_label labels (cited_text is_digit labels t) ≡ true
unfolding cited_text
has_label-cited_text is_digit labels l ls t e =
    subst
      (λ x. has_label x (with_sources x (remove_unverified x (find_labels is_digit 0 t) t)) ≡ true)
      (sym e)
      (has_label-with_sources l ls (remove_unverified (l ∷ ls) (find_labels is_digit 0 t) t))

cited_text_none :
    (is_digit : ℕ → Bool) (labels : List Text) (t : Text)
    → labels ≡ []
    → cited_text is_digit labels t ≡ insufficient
unfolding cited_text
cited_text_none is_digit labels t e =
    subst (λ x. with_sources x (remove_unverified x (find_labels is_digit 0 t) t) ≡ insufficient)
      (sym e) refl

-- An answer's text is made of what the generator returns for some chunks, and the answer cites exactly
-- these: the first results, whose contents fit the budget together, and with the next result would
-- not. Where it cites a chunk its text names the label of one; where it cites none its text says so
-- and it claims no evidence.
pub answer-IsGrounded :
    (is_digit : ℕ → Bool) (generate : List Found → Text) (budget : ℕ) (results : List Found)
    → IsGrounded is_digit generate budget results (answer is_digit generate budget results)
unfolding answer
answer-IsGrounded is_digit generate budget results = record {
  contexts = contexts_within budget results;
  within = contexts_within-Fits budget results;
  cited = refl;
  generated = refl;
  unchanged = refl;
  named = λ c cs e.
      has_label-cited_text is_digit (map label (map citation_of (contexts_within budget results)))
        (label c) (map label cs) (generate (contexts_within budget results)) (ap (map label) e);
  empty = λ e. (
    cited_text_none is_digit (map label (map citation_of (contexts_within budget results)))
        (generate (contexts_within budget results)) (ap (map label) e),
    rw e refl,
  );
}
