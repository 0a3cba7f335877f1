-- ===== src/Working/Execute.antt =====
-- worker.py: JobWorker.execute around the indexer, with check and its exception clauses. The thread
-- of heartbeats shows by its two events.
use repomesh.Prelude.{ℕ, Bool, Option, none, some, ltb, ◌==◌, if◌then◌else◌}
use repomesh.Coordination.Schema.{
  Db, Job, Mode, incremental, Stats, Message, Settings, Result, ok, err, after,
}
use repomesh.Coordination.Leases.{assert_ownership, complete_job, cancel_job, schedule_retry}
use repomesh.Storage.Repositories.{CountedRepository}
use repomesh.Discovery.Files.{Validation, accepted, rejected}
use repomesh.Indexing.Exec.{lease_lost, index_cancelled, Outcome, returns, stops, fails}

-- The events that the heartbeats set, the clock, the random delay and the text of an exception.
pub record Moment : Type 0 where
  pub lost_is_set : Bool
  pub cancel_is_set : Bool
  pub now : ℕ
  pub jitter : ℕ
  pub message : Message

-- The mode of the run: a later attempt goes on from the first.
unfoldable pub run_mode : Job → Mode
run_mode job = if job.attempt == 1 then job.mode else incremental

abbrev pub indexed_as : Validation → Outcome Stats → Option (Outcome Stats)
indexed_as (rejected reason) outcome = none
indexed_as (accepted root) outcome = some outcome

-- What the indexer's run ends with, `none` where an exception comes before it.
unfoldable pub body : Option CountedRepository → Validation → Outcome Stats → Option (Outcome Stats)
body none validation outcome = none
body (some x) validation outcome = indexed_as validation outcome

module _ (s : Settings) (m : Moment) (job : Job) where
  abbrev pub complete_after : Stats → Db → Result (Bool × Db) → Db
  complete_after stats db (err e) = db
  complete_after stats db (ok (cancelled, checked)) =
      after db (complete_job m.now job (ltb 0 stats.error_count) db)

  -- check(), then complete_job.
  unfoldable pub complete_checked : Stats → Db → Db
  unfolding assert_ownership complete_job
  complete_checked stats db =
      if m.lost_is_set
      then db
      else if m.cancel_is_set
      then after db (complete_job m.now job (ltb 0 stats.error_count) db)
      else complete_after stats db (assert_ownership m.now job db)

  -- except Exception
  unfoldable pub give_back : Db → Db
  unfolding schedule_retry
  give_back db =
      if m.lost_is_set then db else after db (schedule_retry s m.now m.jitter job m.message db)

  abbrev pub settled : Db → Option (Outcome Stats) → Db
  settled db none = give_back db
  settled db (some (returns stats)) = complete_checked stats db
  settled db (some (stops lease_lost)) = db
  settled db (some (stops index_cancelled)) = after db (cancel_job m.now job db)
  settled db (some (fails fault)) = give_back db

  -- From the repository's row on.
  unfoldable pub execute : Option CountedRepository → Validation → Outcome Stats → Db → Db
  unfolding body complete_checked give_back cancel_job
  execute repository validation outcome db = settled db (body repository validation outcome)
