-- ===== src/Indexing/Frame.antt =====
-- The callbacks, the reports and the counters leave the index and the vectors alone.
use repomesh.Prelude.{Option, none, some, List, [], ◌∷◌}
use repomesh.Chunking.Texts.{Text}
use repomesh.Storage.Files.{Index}
use repomesh.Indexing.Exec.{Fault, Exec, pure, modify, ◌>>=◌}
use repomesh.Indexing.Services.{Answer, goes_on, asks_cancel, loses_lease}
use repomesh.Indexing.Indexer.{
  Run, answered, ask, add_report, progress, guarded, try_file, count_error,
}
use repomesh.Indexing.Ensures.{
  Post, Ensures, Ensures-pure, Ensures-weaken, Ensures-modify, Ensures-attempt, Ensures-bind,
}

module _ {V : Type 0} (J : Index → V → Type 0) where
  abbrev pub On : Run V → Type 0
  On s = J s.index s.vectors

  answered-On :
      (answers : List Answer) (s : Run V)
      → On s
      → Post (λ _. On) On (answered answers s).0 (answered answers s).1
  answered-On [] s h = h
  answered-On (goes_on ∷ rest) s h = h
  answered-On (asks_cancel ∷ rest) s h = h
  answered-On (loses_lease ∷ rest) s h = h

  pub Ensures-ask : Ensures On ask (λ _. On) On
  unfolding ask
  Ensures-ask = record { at = λ s h. answered-On s.answers s h }

  pub Ensures-progress :
      (path : Option Text) (error : Option Fault) → Ensures On (progress path error) (λ _. On) On
  unfolding progress add_report
  Ensures-progress path error =
      Ensures-bind On (λ _. On) (λ _. On) ask (λ _. modify (add_report path error)) Ensures-ask
        (λ _. Ensures-modify On On (add_report path error) (λ s h. h))

  module _ {A : Type 0} where
    -- A try that leaves `J`, whether it returns or raises.
    pub Ensures-try_file :
        (path : Text) (m : Exec (Run V) A)
        → Ensures On m (λ _. On) On
        → Ensures On (try_file path m) (λ _. On) On
    unfolding try_file
    Ensures-try_file path m e =
        Ensures-attempt On (λ _. On) On m (progress (some path) none)
          (λ f. modify count_error >>= λ _. progress (some path) (some f)) e
          (λ a. Ensures-progress (some path) none)
          (λ f.
            Ensures-bind On (λ _. On) (λ _. On) (modify count_error)
              (λ _. progress (some path) (some f)) (Ensures-modify On On count_error (λ s h. h))
              (λ _. Ensures-progress (some path) (some f)))
          (λ t h. h)

module _ {V A : Type 0} (J K : Index → V → Type 0)
    (weaker : (i : Index) (v : V) → K i v → J i v) where
  -- A guarded body from `J` to `K`, which an exception leaves at `J`.
  pub Ensures-guarded :
      (body : Exec (Run V) A)
      → Ensures (On J) body (λ _. On K) (On J)
      → Ensures (On J) (guarded body) (λ _. On K) (On J)
  unfolding guarded
  Ensures-guarded body e =
      Ensures-bind (On J) (λ _. On K) (λ _. On K) (ask >>= λ _. body) (λ a. ask >>= λ _. pure a)
        (Ensures-bind (On J) (λ _. On J) (λ _. On K) ask (λ _. body) (Ensures-ask J) (λ _. e))
        (λ a.
          Ensures-bind (On K) (λ _. On K) (λ _. On K) ask (λ _. pure a)
            (Ensures-weaken (On K) (On K) (On J) (λ _. On K) ask (λ s h. h) (λ _ t h. h)
              (λ t h. weaker t.index t.vectors h) (Ensures-ask K))
            (λ _. Ensures-pure (On K) a (λ s h. h)))
