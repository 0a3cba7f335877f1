-- ===== src/Coordination/Leases.antt =====
-- coordination/repository.py: what a worker does with a job that it holds. `held` is the row as it
-- was claimed; the tests of OWNED compare the present row with it.
use repomesh.Prelude.{
  ℕ, zero, suc, ◌+◌, ◌*◌, ◌/◌, ◌^◌, min, Bool, true, false, not, ◌&&◌, Option, none, some, List, [],
  ◌∷◌, ltb, leb, ◌==◌, is_id, take, if◌then◌else◌,
}
use repomesh.Table.{Table, put, update_at, id_eq, pair_eq}
use repomesh.Coordination.Claims.{set_active}
use repomesh.Coordination.Schema.{
  Db, Job, Stats, Execution, Worker, Attempt, FileError, Message, ended, Status, retrying,
  completed, completed_with_errors, failed, cancelled, idle, Settings, Result, ok, err, lease_lost,
  is_running,
}

abbrev same_worker : Option ℕ → Option ℕ → Bool
same_worker a none = false
same_worker a (some w) = is_id a w

-- lease_expires_at > clock_timestamp()
abbrev pub is_future : Option ℕ → ℕ → Bool
is_future none now = false
is_future (some t) now = ltb now t

-- OWNED, of the row with the held job's id
unfoldable pub is_owned : ℕ → Job → Job → Bool
is_owned now held row =
    same_worker row.worker_id held.worker_id
    && row.lease_generation == held.lease_generation
    && is_running row.status
    && is_future row.lease_expires_at now

abbrev check_row : (Job → Bool) → Option Job → Option Job
check_row p none = none
check_row p (some row) = if p row then some row else none

-- The row that OWNED selects.
unfoldable pub owned_row : ℕ → Job → Db → Option Job
unfolding is_owned
owned_row now held db = check_row (is_owned now held) (db.jobs.row held.id)

unfoldable pub assert_ownership : ℕ → Job → Db → Result (Bool × Db)
assert_ownership now held db = elim (owned_row now held db) [
  | none ↦ err lease_lost
  | some row ↦ ok (row.cancel_requested, db)
]

abbrev attempt_reclaimed : Option Attempt → Bool
attempt_reclaimed none = false
attempt_reclaimed (some a) = a.reclaimed

unfoldable pub was_reclaimed : Job → Db → Bool
was_reclaimed held db = attempt_reclaimed (db.attempts.row (held.id, held.lease_generation))

unfoldable pub renewed : Settings → ℕ → Job → Job
renewed s now row = record row {
  heartbeat_at = some now;
  updated_at = now;
  lease_expires_at = some (now + s.job_lease);
}

unfoldable pub renew_lease : Settings → ℕ → Job → Db → Result (Bool × Db)
unfolding renewed
renew_lease s now held db = elim (owned_row now held db) [
  | none ↦ err lease_lost
  | some row ↦ ok (
    row.cancel_requested,
    record db {
      jobs = put held.id (renewed s now row) db.jobs;
      attempts = update_at (held.id, held.lease_generation) (λ a. true) extend db.attempts;
    },
  )
]
  where
    extend : Attempt → Attempt
    extend a = record a { lease_expires_at = now + s.job_lease }

unfoldable pub progressed : ℕ → Stats → Job → Job
progressed now stats row = record row {
  progress_done =
      stats.indexed_files + stats.skipped_files + stats.deleted_files + stats.error_count;
  stats = stats;
  updated_at = now;
}

-- `if error and path`: neither is None or empty. A message keeps its first 2000 characters.
unfoldable pub add_file_error :
    ℕ → Job → Option ℕ → Option Message → List FileError → List FileError
add_file_error now held none error errors = errors
add_file_error now held (some path) none errors = errors
add_file_error now held (some path) (some []) errors = errors
add_file_error now held (some path) (some (c ∷ cs)) errors =
    if path == 0
    then errors
    else record {
      job_id = held.id;
      lease_generation = held.lease_generation;
      file_path = path;
      error = take 2000 (c ∷ cs);
      created_at = now;
    }
      ∷ errors

unfoldable pub update_progress :
    ℕ → Job → Stats → Option ℕ → Option Message → Db → Result (Unit {0} × Db)
unfolding progressed
update_progress now held stats path error db = elim (owned_row now held db) [
  | none ↦ err lease_lost
  | some row ↦ ok (
    tt,
    record db {
      jobs = put held.id (progressed now stats row) db.jobs;
      file_errors = add_file_error now held path error db.file_errors;
    },
  )
]

abbrev reserved_by : ℕ → Option Execution → Bool
reserved_by id none = false
reserved_by id (some e) = is_id e.active_job_id id

-- The entry of mutation_guard, and each later `check()` of it inside the same transaction: the
-- repository's row, which the transaction locks, names the job, and the lease is live.
unfoldable pub mutation_guard : ℕ → Job → Db → Result (Bool × Db)
unfolding assert_ownership
mutation_guard now held db =
    if reserved_by held.id (db.executions.row held.repository_id)
    then assert_ownership now held db
    else err lease_lost

abbrev pub is_retrying : Status → Bool
is_retrying retrying = true
is_retrying _ = false

abbrev pub final_status : Job → Status → Status
final_status row status = if row.cancel_requested then cancelled else status

unfoldable pub finished : ℕ → Status → Option Message → ℕ → Job → Job
finished now status error delay row = record row {
  status = final_status row status;
  worker_id = none;
  lease_expires_at = none;
  updated_at = now;
  completed_at = if is_retrying status && not row.cancel_requested then none else some now;
  available_at = now + delay;
  error = error;
}

abbrev one_if : Bool → ℕ
one_if true = 1
one_if false = 0

abbrev is_success : Status → Bool
is_success completed = true
is_success completed_with_errors = true
is_success _ = false

abbrev is_failure : Status → Bool
is_failure failed = true
is_failure _ = false

unfoldable pub release_worker : Job → Status → Table ℕ Worker → Option ℕ → Table ℕ Worker
release_worker held status workers none = workers
release_worker held status workers (some w) =
    update_at w (λ v. is_id v.current_job_id held.id) count workers
  where
    count : Worker → Worker
    count v = record v {
      completed_jobs = v.completed_jobs + one_if (is_success status);
      failed_jobs = v.failed_jobs + one_if (is_failure status);
      worker_status = idle;
      current_job_id = none;
    }

unfoldable pub finish : ℕ → Job → Status → Option Message → ℕ → Db → Result (Job × Db)
unfolding finished release_worker
finish now held status error delay db = elim (owned_row now held db) [
  | none ↦ err lease_lost
  | some row ↦ ok (
    finished now status error delay row,
    record db {
      jobs = put held.id (finished now status error delay row) db.jobs;
      executions =
          update_at held.repository_id (λ e. is_id e.active_job_id held.id) (set_active none)
            db.executions;
      attempts =
          update_at (held.id, held.lease_generation) (λ a. true) (close (final_status row status))
            db.attempts;
      workers = release_worker held (final_status row status) db.workers held.worker_id;
    },
  )
]
  where
    close : Status → Attempt → Attempt
    close outcome a = record a {
      ended_at = some now;
      outcome = some (ended outcome);
      error = error;
    }

unfoldable pub complete_job : ℕ → Job → Bool → Db → Result (Job × Db)
complete_job now held with_errors db =
    finish now held (if with_errors then completed_with_errors else completed) none 0 db

unfoldable pub cancel_job : ℕ → Job → Db → Result (Job × Db)
cancel_job now held db = finish now held cancelled none 0 db

unfoldable pub fail_job : ℕ → Job → Message → Db → Result (Job × Db)
fail_job now held error db = finish now held failed (some (take 2000 error)) 0 db

-- base * 2 ** min(attempt - 1, 20), which at attempt 0 is half of the base.
unfoldable pub backoff : ℕ → ℕ → ℕ
backoff base zero = base / 2
backoff base (suc n) = base * 2 ^ min n 20

-- `jitter` is what random.uniform(0, base) returns.
unfoldable pub retry_delay : Settings → ℕ → ℕ → ℕ
unfolding backoff
retry_delay s attempt jitter = min (backoff s.job_retry_base attempt + jitter) s.job_retry_max

unfoldable pub schedule_retry : Settings → ℕ → ℕ → Job → Message → Db → Result (Job × Db)
schedule_retry s now jitter held error db =
    if leb held.max_attempts held.attempt
    then fail_job now held error db
    else finish now held retrying (some (take 2000 error)) (retry_delay s held.attempt jitter) db
