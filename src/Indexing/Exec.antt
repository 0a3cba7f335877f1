-- ===== src/Indexing/Exec.antt =====
-- Python code with a state and exceptions. A stop is LeaseLost or IndexCancelled, which every
-- handler of the indexer passes on; a fault is any other exception. Both leave the state as it is.
use repomesh.Prelude.{Option, none, some}

pub data Stop : Type 0 where
  lease_lost index_cancelled : Stop

pub data Fault : Type 0 where
  provider_unavailable os_error value_error integrity_error git_failed : Fault

pub data Outcome {ℓ} (A : Type ℓ) : Type ℓ where
  returns : A → Outcome A
  stops : Stop → Outcome A
  fails : Fault → Outcome A

abbrev pub Exec : Type 0 → Type 0 → Type 0
Exec S A = S → Outcome A × S

module _ {S A : Type 0} where
  unfoldable pub pure : A → Exec S A
  pure a s = (returns a, s)

  unfoldable pub fail : Fault → Exec S A
  fail f s = (fails f, s)

  unfoldable pub get_or_fail : Option A → Fault → Exec S A
  get_or_fail none f s = (fails f, s)
  get_or_fail (some a) f s = (returns a, s)

module _ {S : Type 0} where
  unfoldable pub modify : (S → S) → Exec S (Unit {0})
  modify f s = (returns tt, f s)

module _ {S A B : Type 0} where
  abbrev pub followed : (A → Exec S B) → Outcome A → S → Outcome B × S
  followed f (returns a) s = f a s
  followed f (stops x) s = (stops x, s)
  followed f (fails x) s = (fails x, s)

  infixl 10 ◌>>=◌ ◌>>◌
  unfoldable pub ◌>>=◌ : Exec S A → (A → Exec S B) → Exec S B
  ◌>>=◌ m f s = followed f (m s).0 (m s).1

  abbrev pub ◌>>◌ : Exec S A → Exec S B → Exec S B
  m >> n = m >>= λ _. n

module _ {S A : Type 0} where
  abbrev pub deferred : Exec S A → Outcome A → S → Outcome A × S
  deferred handler (returns a) s = (returns a, s)
  deferred handler (stops x) s = (stops x, s)
  deferred handler (fails provider_unavailable) s = handler s
  deferred handler (fails os_error) s = (fails os_error, s)
  deferred handler (fails value_error) s = (fails value_error, s)
  deferred handler (fails integrity_error) s = (fails integrity_error, s)
  deferred handler (fails git_failed) s = (fails git_failed, s)

  -- try: m, except ProviderUnavailable: handler
  unfoldable pub defer : Exec S A → Exec S A → Exec S A
  defer m handler s = deferred handler (m s).0 (m s).1

  -- After a try that passes stops on: the handler of a fault, or the code that follows.
  abbrev pub concluded :
      Exec S (Unit {0}) → (Fault → Exec S (Unit {0})) → Outcome A → S → Outcome (Unit {0}) × S
  concluded done handler (returns a) s = done s
  concluded done handler (stops x) s = (stops x, s)
  concluded done handler (fails f) s = handler f s

  -- try: m, except (LeaseLost, IndexCancelled): raise, except Exception: handler; continue, and
  -- otherwise the code that follows, which the try does not cover.
  unfoldable pub attempt :
      Exec S A → Exec S (Unit {0}) → (Fault → Exec S (Unit {0})) → Exec S (Unit {0})
  attempt m done handler s = concluded done handler (m s).0 (m s).1
