-- ===== src/Working/Releases.antt =====
-- A worker that has lost its job changes nothing; one that has it gives it back in every case.
use repomesh.Prelude.{
  ℕ, ◌≡◌, refl, ◌≢◌, Bool, true, false, Option, none, some, ltb, leb, Bool-cases, inl, inr,
}
use repomesh.Coordination.Schema.{
  Db, Job, Failure, Status, completed, completed_with_errors, failed, cancelled, retrying, Stats,
  Message, Settings, ok, err, after, is_running,
}
use repomesh.Coordination.Leases.{
  owned_row, assert_ownership, finished, finish, complete_job, cancel_job, fail_job, schedule_retry,
}
use repomesh.Coordination.Invariant.{Consistent}
use repomesh.Coordination.Endings.{Ended, finish-Ended}
use repomesh.Storage.Repositories.{CountedRepository}
use repomesh.Discovery.Files.{Validation}
use repomesh.Indexing.Exec.{lease_lost, index_cancelled, Outcome, returns, stops, fails}
use repomesh.Working.Execute.{Moment, body, complete_checked, give_back, settled, execute}

-- The row has ended in some way, and its repository is free.
pub record Released (now : ℕ) (job row : Job) (old new : Db) : Type 0 where
  pub status : Status
  pub delay : ℕ
  pub error : Option Message
  pub ended : Ended job (finished now status error delay row) old new

module _ (s : Settings) (m : Moment) (job : Job) (db : Db) where
  finish_unowned :
      (status : Status) (error : Option Message) (delay : ℕ)
      → owned_row m.now job db ≡ none
      → after db (finish m.now job status error delay db) ≡ db
  unfolding finish
  finish_unowned status error delay h = rw (h, finish) refl

  give_back_unowned : owned_row m.now job db ≡ none → give_back s m job db ≡ db
  unfolding give_back schedule_retry fail_job
  give_back_unowned h = elim (Bool-cases m.lost_is_set) [
    | inl lost ↦ rw lost refl
    | inr on ↦ elim (Bool-cases (leb job.max_attempts job.attempt)) [
      | inl out ↦ rw (on, out) (finish_unowned failed _ 0 h)
      | inr more ↦ rw (on, more) (finish_unowned retrying _ _ h)
    ]
  ]

  refused_unowned :
      owned_row m.now job db ≡ none → assert_ownership m.now job db ≡ err Failure.lease_lost
  unfolding assert_ownership
  refused_unowned h = rw (h, assert_ownership) refl

  complete_unowned :
      (stats : Stats) → owned_row m.now job db ≡ none → complete_checked s m job stats db ≡ db
  unfolding complete_checked complete_job
  complete_unowned stats h = elim (Bool-cases m.lost_is_set) [
    | inl lost ↦ rw lost refl
    | inr on ↦ elim (Bool-cases m.cancel_is_set) [
      | inl cancel ↦ rw (on, cancel) (finish_unowned _ none 0 h)
      | inr calm ↦ rw (on, calm, refused_unowned h) refl
    ]
  ]

  unowned_settled :
      (o : Option (Outcome Stats)) → owned_row m.now job db ≡ none → settled s m job db o ≡ db
  unfolding cancel_job
  unowned_settled none h = give_back_unowned h
  unowned_settled (some (returns stats)) h = complete_unowned stats h
  unowned_settled (some (stops lease_lost)) h = refl
  unowned_settled (some (stops index_cancelled)) h = finish_unowned cancelled none 0 h
  unowned_settled (some (fails fault)) h = give_back_unowned h

  module _ (row : Job) (v : Consistent db) (got : owned_row m.now job db ≡ some row)
      (home : job.repository_id ≡ row.repository_id) (on : m.lost_is_set ≡ false) where
    Released-finish :
        (status : Status) (error : Option Message) (delay : ℕ)
        → is_running status ≡ false
        → Released m.now job row db (after db (finish m.now job status error delay db))
    Released-finish status error delay waits = record {
      status = status;
      delay = delay;
      error = error;
      ended = finish-Ended m.now delay job row status error db v got home waits;
    }

    Released-give_back : Released m.now job row db (give_back s m job db)
    unfolding give_back schedule_retry fail_job
    Released-give_back = elim (Bool-cases (leb job.max_attempts job.attempt)) [
      | inl out ↦ rw (on, out) (Released-finish failed _ 0 refl)
      | inr more ↦ rw (on, more) (Released-finish retrying _ _ refl)
    ]

    Released-complete_job :
        (with_errors : Bool)
        → Released m.now job row db (after db (complete_job m.now job with_errors db))
    unfolding complete_job
    Released-complete_job true = Released-finish completed_with_errors none 0 refl
    Released-complete_job false = Released-finish completed none 0 refl

    checked : assert_ownership m.now job db ≡ ok (row.cancel_requested, db)
    unfolding assert_ownership
    checked = rw (got, assert_ownership) refl

    Released-complete_checked :
        (stats : Stats) → Released m.now job row db (complete_checked s m job stats db)
    unfolding complete_checked
    Released-complete_checked stats = elim (Bool-cases m.cancel_is_set) [
      | inl cancel ↦ rw (on, cancel) (Released-complete_job (ltb 0 stats.error_count))
      | inr calm ↦ rw (on, calm, checked) (Released-complete_job (ltb 0 stats.error_count))
    ]

    Released-settled :
        (o : Option (Outcome Stats))
        → o ≢ some (stops lease_lost)
        → Released m.now job row db (settled s m job db o)
    unfolding cancel_job
    Released-settled none h = Released-give_back
    Released-settled (some (returns stats)) h = Released-complete_checked stats
    Released-settled (some (stops lease_lost)) h = absurd (h refl)
    Released-settled (some (stops index_cancelled)) h = Released-finish cancelled none 0 refl
    Released-settled (some (fails fault)) h = Released-give_back

-- What an execution does to the tables.
pub record Executed (m : Moment) (job : Job) (outcome : Option (Outcome Stats)) (db new : Db)
    : Type 0 where
  pub unowned : owned_row m.now job db ≡ none → new ≡ db
  pub released :
      (row : Job)
      → Consistent db
      → owned_row m.now job db ≡ some row
      → job.repository_id ≡ row.repository_id
      → m.lost_is_set ≡ false
      → outcome ≢ some (stops lease_lost)
      → Released m.now job row db new

-- However the indexing of a claimed job ends, a worker that no longer holds the job changes nothing.
-- A worker that holds it, and has not seen a lost lease, takes it out of the running jobs, frees its
-- repository and leaves every other job's row as it was.
pub execute-Executed :
    (s : Settings) (m : Moment) (job : Job) (repository : Option CountedRepository)
    (validation : Validation) (outcome : Outcome Stats) (db : Db)
    → Executed m job
        (body repository validation outcome)
        db
        (execute s m job repository validation outcome db)
unfolding execute
execute-Executed s m job repository validation outcome db = record {
  unowned = unowned_settled s m job db (body repository validation outcome);
  released = λ row v got home on h.
      Released-settled s m job db row v got home on (body repository validation outcome) h;
}
