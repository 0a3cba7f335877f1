-- ===== src/Indexing/Quiet.antt =====
-- Code of the indexer that leaves the counters alone.
use repomesh.Prelude.{◌≡◌, ◌∙◌, refl, Bool, true, false, Option, none, some, List, [], ◌∷◌}
use repomesh.Chunking.Texts.{Text}
use repomesh.Chunking.Chunker.{CodeChunk}
use repomesh.Storage.Files.{Index, replace_file_chunks}
use repomesh.Indexing.Exec.{
  Outcome, returns, stops, fails, Fault, provider_unavailable, os_error, value_error,
  integrity_error, git_failed, Exec, pure, modify, ◌>>=◌, followed, defer, deferred,
}
use repomesh.Indexing.Services.{
  VectorStore, Reply, done, unavailable, Answer, goes_on, asks_cancel, loses_lease, Setup,
}
use repomesh.Indexing.Indexer.{
  Run, State, answered, ask, add_report, progress, on_index, guarded, replied, delete_vectors,
  upsert_vectors, delete_points, sync_points, stored, store_chunks, finish_if, write_file,
}

-- `m` leaves the counters as they are, whether it returns or raises.
pub record Quiet {V A : Type 0} (m : Exec (Run V) A) : Type 0 where
  pub at : (s : Run V) → (m s).1.stats ≡ s.stats

module _ {V : Type 0} where
  quiet_answered : (answers : List Answer) (s : Run V) → (answered answers s).1.stats ≡ s.stats
  quiet_answered [] s = refl
  quiet_answered (goes_on ∷ rest) s = refl
  quiet_answered (asks_cancel ∷ rest) s = refl
  quiet_answered (loses_lease ∷ rest) s = refl

  pub Quiet-ask : Quiet (ask {V = V})
  unfolding ask
  Quiet-ask = record { at = λ s. quiet_answered s.answers s }

  pub Quiet-on_index : (f : Index → Index) → Quiet (modify (on_index {V = V} f))
  unfolding modify on_index
  Quiet-on_index f = record { at = λ s. refl }

  pub Quiet-add_report :
      (path : Option Text) (error : Option Fault) → Quiet (modify (add_report {V = V} path error))
  unfolding modify add_report
  Quiet-add_report path error = record { at = λ s. refl }

module _ {V A : Type 0} where
  pub Quiet-pure : (a : A) → Quiet (pure {S = Run V} a)
  unfolding pure
  Quiet-pure a = record { at = λ s. refl }

  Quiet-deferred :
      (handler : Exec (Run V) A)
      → Quiet handler
      → (o : Outcome A) (s : Run V) → (deferred handler o s).1.stats ≡ s.stats
  Quiet-deferred handler q (returns a) s = refl
  Quiet-deferred handler q (stops x) s = refl
  Quiet-deferred handler q (fails provider_unavailable) s = q.at s
  Quiet-deferred handler q (fails os_error) s = refl
  Quiet-deferred handler q (fails value_error) s = refl
  Quiet-deferred handler q (fails integrity_error) s = refl
  Quiet-deferred handler q (fails git_failed) s = refl

  pub Quiet-defer : (m handler : Exec (Run V) A) → Quiet m → Quiet handler → Quiet (defer m handler)
  unfolding defer
  Quiet-defer m handler q r = record { at = λ s. Quiet-deferred handler r (m s).0 (m s).1 ∙ q.at s }

module _ {V A B : Type 0} where
  Quiet-followed :
      (f : A → Exec (Run V) B)
      → ((a : A) → Quiet (f a))
      → (o : Outcome A) (s : Run V) → (followed f o s).1.stats ≡ s.stats
  Quiet-followed f q (returns a) s = (q a).at s
  Quiet-followed f q (stops x) s = refl
  Quiet-followed f q (fails x) s = refl

  pub Quiet-bind :
      (m : Exec (Run V) A) (f : A → Exec (Run V) B)
      → Quiet m
      → ((a : A) → Quiet (f a))
      → Quiet (m >>= f)
  unfolding ◌>>=◌
  Quiet-bind m f q r = record { at = λ s. Quiet-followed f r (m s).0 (m s).1 ∙ q.at s }

pub ruleset quiet_rules =
    (Quiet-ask, Quiet-on_index, Quiet-add_report, Quiet-pure, Quiet-defer, Quiet-bind)

pub Quiet-progress :
    {V : Type 0} (path : Option Text) (error : Option Fault) → Quiet (progress {V = V} path error)
unfolding progress
Quiet-progress path error = search quiet_rules

pub Quiet-guarded : {V A : Type 0} (body : Exec (Run V) A) → Quiet body → Quiet (guarded body)
unfolding guarded
Quiet-guarded body q =
    Quiet-bind (ask >>= (λ _. body)) (λ a. ask >>= (λ _. pure a))
      (Quiet-bind ask (λ _. body) Quiet-ask (λ _. q))
      (λ a. Quiet-bind ask (λ _. pure a) Quiet-ask (λ _. Quiet-pure a))

module _ (V : VectorStore) (u : Setup) where
  quiet_replied : (o : Reply V.State) (s : State V u) → (replied V u o s).1.stats ≡ s.stats
  quiet_replied (done w) s = refl
  quiet_replied (unavailable w) s = refl

  Quiet-delete_vectors : (path : Text) → Quiet (delete_vectors V u path)
  unfolding delete_vectors
  Quiet-delete_vectors path = record {
    at = λ s. quiet_replied (V.delete_file u.repository_id path s.vectors) s;
  }

  Quiet-upsert_vectors : (chunks : List CodeChunk) → Quiet (upsert_vectors V u chunks)
  unfolding upsert_vectors
  Quiet-upsert_vectors chunks = record { at = λ s. quiet_replied (V.upsert chunks s.vectors) s }

  quiet_stored : (o : Option Index) (s : State V u) → (stored V u o s).1.stats ≡ s.stats
  quiet_stored none s = refl
  quiet_stored (some index) s = refl

  Quiet-store_chunks :
      (path digest : Text) (chunks : List CodeChunk) (b : Bool)
      → Quiet (store_chunks V u path digest chunks b)
  unfolding store_chunks
  Quiet-store_chunks path digest chunks b = record {
    at = λ s.
        quiet_stored
          (replace_file_chunks u.now u.repository_id path digest u.disk.commit chunks b s.index) s;
  }

  Quiet-finish_if : (b : Bool) (path : Text) → Quiet (finish_if V u b path)
  unfolding finish_if
  Quiet-finish_if true path = search quiet_rules
  Quiet-finish_if false path = search quiet_rules

  pub Quiet-delete_points : (path : Text) → Quiet (delete_points V u path)
  unfolding delete_points
  Quiet-delete_points path = search (quiet_rules, Quiet-delete_vectors)

  Quiet-sync_points : (path : Text) (chunks : List CodeChunk) → Quiet (sync_points V u path chunks)
  unfolding sync_points
  Quiet-sync_points path chunks =
      search (quiet_rules, Quiet-delete_vectors, Quiet-upsert_vectors) depth 12

  pub Quiet-write_file :
      (path digest : Text) (chunks : List CodeChunk) → Quiet (write_file V u path digest chunks)
  unfolding write_file
  Quiet-write_file path digest chunks =
      search (quiet_rules, Quiet-guarded, Quiet-sync_points, Quiet-store_chunks, Quiet-finish_if)
