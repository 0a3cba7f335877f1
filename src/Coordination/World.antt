-- ===== src/Coordination/World.antt =====
-- Processes over one database: every transaction of the API, the watcher and the workers is one
-- step, in any order and at any reading of the clock. `handed` holds each job as a claim returned
-- it, for as long as some worker may go on to use it, a worker that has lost its lease included.
pub mod Safety
pub mod Exclusion
use repomesh.Prelude.{ℕ, zero, suc, Bool, Option, none, some, List, [], ◌∷◌}
use repomesh.Prelude.Int.{ℤ}
use repomesh.Table
use repomesh.Coordination.Schema.{Db, Job, Mode, Stats, Message, Settings, Result, ok, err, after}
use repomesh.Coordination.Jobs.{submit_job, resubmit_job, request_cancel}
use repomesh.Coordination.Workers.{register_worker, heartbeat_worker, stop_worker}
use repomesh.Coordination.Claims.{Locks, claim_job}
use repomesh.Coordination.Leases.{
  renew_lease, update_progress, complete_job, cancel_job, schedule_retry,
}
use repomesh.Coordination.Watches.{ensure_watch, write_enabled, record_error, observe}

pub record World : Type 0 where
  pub db : Db
  pub handed : List Job

-- What a worker does with a job that it holds.
pub data Deed : Type 0 where
  renews : Deed
  reports : Stats → Option ℕ → Option Message → Deed
  completes : Bool → Deed
  acknowledges_cancel : Deed
  retries : ℕ → Message → Deed

pub data Action : Type 0 where
  submits : ℕ → ℕ → Mode → Option ℕ → ℤ → Action
  resubmits : ℕ → ℕ → Action
  cancels : ℕ → Action
  registers : ℕ → ℕ → ℕ → ℕ → ℕ → Action
  beats : ℕ → ℕ → Option ℕ → Action
  stops : ℕ → ℕ → Action
  watches : ℕ → Option Bool → Action
  switches : ℕ → Bool → Action
  notes_error : ℕ → Message → Action
  observes : ℕ → ℕ → ℕ → Option ℕ → Action
  claims : Locks → ℕ → ℕ → Action
  does : ℕ → Deed → Action

pub holding : List Job → ℕ → Option Job
holding [] i = none
holding (j ∷ js) zero = some j
holding (j ∷ js) (suc i) = holding js i

unfoldable pub act : Settings → ℕ → Job → Deed → Db → Db
act s now held renews db = after db (renew_lease s now held db)
act s now held (reports stats path error) db =
    after db (update_progress now held stats path error db)
act s now held (completes with_errors) db = after db (complete_job now held with_errors db)
act s now held acknowledges_cancel db = after db (cancel_job now held db)
act s now held (retries jitter error) db = after db (schedule_retry s now jitter held error db)

-- A claim hands its job out.
unfoldable pub receive : World → Result (Option Job × Db) → World
receive w (ok (none, db)) = record w { db = db }
receive w (ok (some j, db)) = record { db = db; handed = j ∷ w.handed }
receive w (err e) = w

unfoldable pub act_on : Settings → ℕ → Option Job → Deed → World → World
unfolding act
act_on s now none deed w = w
act_on s now (some held) deed w = record w { db = act s now held deed w.db }

-- `exhausted` is the text of the error of a job that is out of attempts.
unfoldable pub step : Settings → Message → World → ℕ × Action → World
unfolding receive act_on holding
step s exhausted w (now, submits fresh repository mode key priority) = record w {
  db = after w.db (submit_job s now fresh repository mode key priority w.db);
}
step s exhausted w (now, resubmits fresh id) = record w {
  db = after w.db (resubmit_job s now fresh id w.db);
}
step s exhausted w (now, cancels id) = record w { db = after w.db (request_cancel now id w.db) }
step s exhausted w (now, registers session worker hostname pid version) = record w {
  db = after w.db (register_worker s now session worker hostname pid version w.db);
}
step s exhausted w (now, beats worker session current) = record w {
  db = after w.db (heartbeat_worker now worker session current w.db);
}
step s exhausted w (now, stops worker session) = record w {
  db = after w.db (stop_worker now worker session w.db);
}
step s exhausted w (now, watches repository enabled) = record w {
  db = ensure_watch s repository enabled w.db;
}
step s exhausted w (now, switches repository enabled) = record w {
  db = write_enabled now repository enabled w.db;
}
step s exhausted w (now, notes_error repository message) = record w {
  db = record_error now repository message w.db;
}
step s exhausted w (now, observes fresh repository fingerprint indexed) = record w {
  db = after w.db (observe s now fresh repository fingerprint indexed w.db);
}
step s exhausted w (now, claims locks worker session) =
    receive w (claim_job s exhausted now locks worker session w.db)
step s exhausted w (now, does i deed) = act_on s now (holding w.handed i) deed w

unfoldable pub run : Settings → Message → World → List (ℕ × Action) → World
unfolding step
run s exhausted w [] = w
run s exhausted w (a ∷ rest) = run s exhausted (step s exhausted w a) rest

-- The tables after the migrations.
unfoldable pub start : World
unfolding Table.empty
start = record {
  db = record {
    jobs = Table.empty;
    executions = Table.empty;
    workers = Table.empty;
    attempts = Table.empty;
    file_errors = [];
    watches = Table.empty;
  };
  handed = [];
}
