-- ===== src/Coordination/Endings.antt =====
-- How a holder's work ends: _finish and its callers.
use repomesh.Prelude.{
  ℕ, ◌+◌, ◌≤◌, ◌<◌, ◌≡◌, ◌≢◌, refl, false, Option, some, arith, Bool-cases, inl, inr, leb, take,
}
use repomesh.Table.{put, update_at, id_eq, pair_eq}
use repomesh.Coordination.Schema.{
  Db, Job, Status, Message, Settings, after, retrying, failed, cancelled, is_running, is_terminal,
}
use repomesh.Coordination.Jobs.{no_execution, request_cancel, flag_cancel}
use repomesh.Coordination.Leases.{
  is_owned, owned_row, finished, finish, fail_job, retry_delay, schedule_retry,
}
use repomesh.Coordination.Invariant.{Consistent}
use repomesh.Coordination.Invariant.Held.{Owned, owned_row-Owned}

-- The tables after an ending: the row has ended as `j`, its repository is free, and every other
-- job's row is as it was.
pub record Ended (held j : Job) (old new : Db) : Type 0 where
  pub row : new.jobs.row held.id ≡ some j
  pub idle : is_running j.status ≡ false
  pub free : new.executions.row held.repository_id ≡ some no_execution
  pub others : (k : ℕ) → k ≢ held.id → new.jobs.row k ≡ old.jobs.row k

-- An ending by the job's holder, to any status but running, stores the finished row, frees the
-- job's repository and leaves every other job's row as it was.
pub finish-Ended :
    (now delay : ℕ) (held row : Job) (status : Status) (error : Option Message) (db : Db)
    → Consistent db
    → owned_row now held db ≡ some row
    → held.repository_id ≡ row.repository_id
    → is_running status ≡ false
    → Ended held
        (finished now status error delay row)
        db
        (after db (finish now held status error delay db))
unfolding finish finished put update_at
finish-Ended now delay held row status error db v got home ends =
    let o : Owned now held db row = owned_row-Owned now held db row got in
    rw (got, finish)
      (record {
        row = ground arith;
        idle = ground arith;
        free = ground (arith, v.reserved held.id row o.found o.active, home);
        others = λ k h. ground (arith, h);
      })

-- What a retry by the holder stores: with attempts left, a row that is not due before the delay is
-- over; without, a failed one.
pub data RetryOutcome (s : Settings) (now jitter : ℕ) (held j : Job) : Type 0 where
  again :
      held.attempt < held.max_attempts
      → j.status ≡ retrying
      → j.available_at ≡ now + retry_delay s held.attempt jitter
      → retry_delay s held.attempt jitter ≤ s.job_retry_max
      → RetryOutcome s now jitter held j
  gave_up : held.max_attempts ≤ held.attempt → j.status ≡ failed → RetryOutcome s now jitter held j

pub record Rescheduled (s : Settings) (now jitter : ℕ) (held : Job) (new : Db) : Type 0 where
  pub job : Job
  pub found : new.jobs.row held.id ≡ some job
  pub outcome : RetryOutcome s now jitter held job

retry_delay-le :
    (s : Settings) (attempt jitter : ℕ) → retry_delay s attempt jitter ≤ s.job_retry_max
unfolding retry_delay
retry_delay-le s attempt jitter = omega arith

-- A retry by the holder of a job without a request to cancel puts it back with a delay of at most
-- job_retry_max while it has attempts left, and fails it otherwise.
pub schedule_retry-Rescheduled :
    (s : Settings) (now jitter : ℕ) (held row : Job) (error : Message) (db : Db)
    → owned_row now held db ≡ some row
    → row.cancel_requested ≡ false
    → Rescheduled s now jitter held (after db (schedule_retry s now jitter held error db))
unfolding schedule_retry fail_job finish finished put
schedule_retry-Rescheduled s now jitter held row error db got calm =
    elim (Bool-cases (leb held.max_attempts held.attempt)) [
      | inl out ↦ rw out (
          rw (got, finish)
            (record {
              job = finished now failed (some (take 2000 error)) 0 row;
              found = ground arith;
              outcome = gave_up (ground arith) (ground arith);
            }))
      | inr more ↦ rw more (
          rw (got, finish)
            (record {
              job =
                  finished now retrying (some (take 2000 error)) (retry_delay s held.attempt jitter)
                    row;
              found = ground arith;
              outcome =
                  again (ground arith) (ground arith) refl (retry_delay-le s held.attempt jitter);
            }))
    ]

-- The row at `k` has ended as cancelled.
pub record IsCancelled (k : ℕ) (db : Db) : Type 0 where
  pub job : Job
  pub found : db.jobs.row k ≡ some job
  pub status : job.status ≡ cancelled

cancel_owned :
    (t now : ℕ) (held row : Job) (db : Db)
    → owned_row now held db ≡ some row
    → owned_row now held (after db (request_cancel t held.id db)) ≡ some (flag_cancel t row)
unfolding request_cancel owned_row flag_cancel put is_owned
cancel_owned t now held row db got =
    let o : Owned now held db row = owned_row-Owned now held db row got in
    let open_still : is_terminal row.status ≡ false = ground (arith, o.active) in
    rw (o.found, request_cancel) (rw open_still (ground (arith, o.is_live, o.active)))

-- After a request to cancel a running job, every ending by its holder leaves it cancelled.
pub finish-IsCancelled :
    (t now delay : ℕ) (held row : Job) (status : Status) (error : Option Message) (db : Db)
    → owned_row now held db ≡ some row
    → IsCancelled held.id (
        after
          (after db (request_cancel t held.id db))
          (finish now held status error delay (after db (request_cancel t held.id db))))
unfolding finish finished put flag_cancel
finish-IsCancelled t now delay held row status error db got =
    rw (cancel_owned t now held row db got, finish)
      (record {
        job = finished now status error delay (flag_cancel t row);
        found = ground arith;
        status = refl;
      })
