-- ===== src/Indexing/Ensures.antt =====
-- Before and after of the indexer's code: what holds when it returns, and what holds when it raises.
use repomesh.Prelude.{◌≡◌, refl, Option, none, some}
use repomesh.Indexing.Exec.{
  Outcome, returns, stops, fails, Fault, provider_unavailable, os_error, value_error,
  integrity_error, git_failed, Exec, pure, fail, get_or_fail, modify, ◌>>=◌, followed, defer,
  deferred, attempt, concluded,
}

-- `Q` of the result and the state after a return, `X` of the state after an exception.
abbrev pub Post : {S A : Type 0} → (A → S → Type 0) → (S → Type 0) → Outcome A → S → Type 0
Post Q X (returns a) s = Q a s
Post Q X (stops x) s = X s
Post Q X (fails x) s = X s

pub record Ensures {S A : Type 0} (P : S → Type 0) (m : Exec S A) (Q : A → S → Type 0)
    (X : S → Type 0) : Type 0 where
  pub at : (s : S) → P s → Post Q X (m s).0 (m s).1

module _ {S A : Type 0} {Q : A → S → Type 0} {X : S → Type 0} where
  pub Ensures-pure : (P : S → Type 0) (a : A) → ((s : S) → P s → Q a s) → Ensures P (pure a) Q X
  unfolding pure
  Ensures-pure P a h = record { at = h }

  pub Ensures-fail : (f : Fault) → Ensures X (fail f) Q X
  unfolding fail
  Ensures-fail f = record { at = λ s h. h }

  Post-split :
      (o : Outcome A) (s : S) (X' : S → Type 0) (Q' : A → S → Type 0)
      → ((a : A) (t : S) → Q a t → Q' a t)
      → ((t : S) → X t → X' t)
      → Post Q X o s
      → Post Q' X' o s
  Post-split (returns a) s X' Q' q x h = q a s h
  Post-split (stops _) s X' Q' q x h = x s h
  Post-split (fails _) s X' Q' q x h = x s h

  pub Ensures-weaken :
      (P P' X' : S → Type 0) (Q' : A → S → Type 0) (m : Exec S A)
      → ((s : S) → P' s → P s)
      → ((a : A) (t : S) → Q a t → Q' a t)
      → ((t : S) → X t → X' t)
      → Ensures P m Q X
      → Ensures P' m Q' X'
  Ensures-weaken P P' X' Q' m p q x e = record {
    at = λ s h. Post-split (m s).0 (m s).1 X' Q' q x (e.at s (p s h));
  }

module _ {S : Type 0} {X : S → Type 0} where
  pub Ensures-modify :
      (P Q : S → Type 0) (f : S → S) → ((s : S) → P s → Q (f s)) → Ensures P (modify f) (λ _. Q) X
  unfolding modify
  Ensures-modify P Q f h = record { at = h }

module _ {S A : Type 0} {X : S → Type 0} where
  -- The code after it may use that the option has a value.
  pub Ensures-get_or_fail :
      (P : S → Type 0) (o : Option A) (f : Fault)
      → ((s : S) → P s → X s)
      → Ensures P (get_or_fail o f) (λ a s. (o ≡ some a) × P s) X
  unfolding get_or_fail
  Ensures-get_or_fail P none f h = record { at = h }
  Ensures-get_or_fail P (some a) f h = record { at = λ s p. (refl, p) }

  Post-deferred :
      (Q : A → S → Type 0) (handler : Exec S A) (o : Outcome A) (s : S)
      → Ensures X handler Q X
      → Post Q X o s
      → Post Q X (deferred handler o s).0 (deferred handler o s).1
  Post-deferred Q handler (returns a) s e h = h
  Post-deferred Q handler (stops x) s e h = h
  Post-deferred Q handler (fails provider_unavailable) s e h = e.at s h
  Post-deferred Q handler (fails os_error) s e h = h
  Post-deferred Q handler (fails value_error) s e h = h
  Post-deferred Q handler (fails integrity_error) s e h = h
  Post-deferred Q handler (fails git_failed) s e h = h

  pub Ensures-defer :
      (P : S → Type 0) (Q : A → S → Type 0) (m handler : Exec S A)
      → Ensures P m Q X
      → Ensures X handler Q X
      → Ensures P (defer m handler) Q X
  unfolding defer
  Ensures-defer P Q m handler e h = record {
    at = λ s p. Post-deferred Q handler (m s).0 (m s).1 h (e.at s p);
  }

module _ {S A : Type 0} {X Y : S → Type 0} where
  Post-concluded :
      (Q : A → S → Type 0) (R : S → Type 0) (rest : Exec S (Unit {0}))
      (handler : Fault → Exec S (Unit {0})) (o : Outcome A) (s : S)
      → ((a : A) → Ensures (Q a) rest (λ _. R) Y)
      → ((f : Fault) → Ensures X (handler f) (λ _. R) Y)
      → ((t : S) → X t → Y t)
      → Post Q X o s
      → Post (λ _. R) Y (concluded rest handler o s).0 (concluded rest handler o s).1
  Post-concluded Q R rest handler (returns a) s e f x h = (e a).at s h
  Post-concluded Q R rest handler (stops y) s e f x h = x s h
  Post-concluded Q R rest handler (fails y) s e f x h = (f y).at s h

  pub Ensures-attempt :
      (P : S → Type 0) (Q : A → S → Type 0) (R : S → Type 0) (m : Exec S A)
      (rest : Exec S (Unit {0})) (handler : Fault → Exec S (Unit {0}))
      → Ensures P m Q X
      → ((a : A) → Ensures (Q a) rest (λ _. R) Y)
      → ((f : Fault) → Ensures X (handler f) (λ _. R) Y)
      → ((t : S) → X t → Y t)
      → Ensures P (attempt m rest handler) (λ _. R) Y
  unfolding attempt
  Ensures-attempt P Q R m rest handler e r f x = record {
    at = λ s p. Post-concluded Q R rest handler (m s).0 (m s).1 r f x (e.at s p);
  }

module _ {S A B : Type 0} {X : S → Type 0} where
  Post-followed :
      (Q : A → S → Type 0) (R : B → S → Type 0) (f : A → Exec S B) (o : Outcome A) (s : S)
      → ((a : A) → Ensures (Q a) (f a) R X)
      → Post Q X o s
      → Post R X (followed f o s).0 (followed f o s).1
  Post-followed Q R f (returns a) s e h = (e a).at s h
  Post-followed Q R f (stops x) s e h = h
  Post-followed Q R f (fails x) s e h = h

  pub Ensures-bind :
      (P : S → Type 0) (Q : A → S → Type 0) (R : B → S → Type 0) (m : Exec S A) (f : A → Exec S B)
      → Ensures P m Q X
      → ((a : A) → Ensures (Q a) (f a) R X)
      → Ensures P (m >>= f) R X
  unfolding ◌>>=◌
  Ensures-bind P Q R m f e k = record {
    at = λ s p. Post-followed Q R f (m s).0 (m s).1 k (e.at s p);
  }
