-- ===== src/Coordination/Schema.antt =====
-- The rows of coordination/migrations/*.sql and models.py, and the settings of config.py that the
-- coordination code reads. Times are microseconds of the database's clock; identifiers are
-- numbers, compared and ordered as the text that they stand for, with 0 for the empty text.
use repomesh.Prelude.{ℕ, Bool, true, false, ◌&&◌, not, Option, List, is_some, if◌then◌else◌}
use repomesh.Prelude.Int.{ℤ}
use repomesh.Table.{Table}

pub data Status : Type 0 where
  queued running retrying completed completed_with_errors failed cancelled : Status

-- Any text but the two that `submit_job` takes is `unknown`.
pub data Mode : Type 0 where
  full incremental unknown : Mode

pub data Trigger : Type 0 where
  manual watch retry : Trigger

pub data WorkerStatus : Type 0 where
  idle busy stopped : WorkerStatus

-- A message is the list of its characters.
abbrev pub Message : Type 0
Message = List ℕ

-- The counters of IndexStats, and the same columns of `jobs`.
pub record Stats : Type 0 where
  pub total_files : ℕ
  pub indexed_files : ℕ
  pub indexed_chunks : ℕ
  pub deleted_files : ℕ
  pub skipped_files : ℕ
  pub error_count : ℕ

pub record Job : Type 0 where
  pub id : ℕ
  pub repository_id : ℕ
  pub mode : Mode
  pub trigger : Trigger
  pub parent_job_id : Option ℕ
  pub status : Status
  pub priority : ℤ
  pub attempt : ℕ
  pub max_attempts : ℕ
  pub idempotency_key : Option ℕ
  pub worker_id : Option ℕ
  pub lease_generation : ℕ
  pub created_at : ℕ
  pub updated_at : ℕ
  pub available_at : ℕ
  pub started_at : Option ℕ
  pub completed_at : Option ℕ
  pub heartbeat_at : Option ℕ
  pub lease_expires_at : Option ℕ
  pub cancel_requested : Bool
  pub progress_done : ℕ
  pub stats : Stats
  pub error : Option Message

pub record Execution : Type 0 where
  pub active_job_id : Option ℕ

pub record Worker : Type 0 where
  pub session_id : ℕ
  pub hostname : ℕ
  pub pid : ℕ
  pub version : ℕ
  pub worker_status : WorkerStatus
  pub started_at : ℕ
  pub last_seen_at : ℕ
  pub current_job_id : Option ℕ
  pub completed_jobs : ℕ
  pub failed_jobs : ℕ

pub data Outcome : Type 0 where
  expired : Outcome
  ended : Status → Outcome

pub record Attempt : Type 0 where
  pub worker_id : ℕ
  pub attempt : ℕ
  pub claimed_at : ℕ
  pub lease_expires_at : ℕ
  pub ended_at : Option ℕ
  pub outcome : Option Outcome
  pub reclaimed : Bool
  pub error : Option Message

pub record FileError : Type 0 where
  pub job_id : ℕ
  pub lease_generation : ℕ
  pub file_path : ℕ
  pub error : Message
  pub created_at : ℕ

pub record Watch : Type 0 where
  pub enabled : Bool
  pub observed_fingerprint : Option ℕ
  pub submitted_fingerprint : Option ℕ
  pub stable_since : Option ℕ
  pub pending_since : Option ℕ
  pub last_checked_at : Option ℕ
  pub last_job_id : Option ℕ
  pub error : Option Message

-- job_attempts has the key (job_id, lease_generation).
pub record Db : Type 0 where
  pub jobs : Table ℕ Job
  pub executions : Table ℕ Execution
  pub workers : Table ℕ Worker
  pub attempts : Table (ℕ × ℕ) Attempt
  pub file_errors : List FileError
  pub watches : Table ℕ Watch

-- Durations in microseconds.
pub record Settings : Type 0 where
  pub job_lease : ℕ
  pub job_heartbeat : ℕ
  pub job_max_retries : ℕ
  pub job_retry_base : ℕ
  pub job_retry_max : ℕ
  pub worker_offline : ℕ
  pub watch_poll : ℕ
  pub watch_debounce : ℕ
  pub watch_max_wait : ℕ
  pub watch_default_enabled : Bool

-- ValueError, LookupError, LeaseLost, WorkerIdentityInUse, and what the database raises on a
-- row that breaks a key, an index or a reference. Each leaves the transaction rolled back.
pub data Failure : Type 0 where
  value_error lookup_error lease_lost worker_identity_in_use : Failure
  unique_violation foreign_key_violation check_violation : Failure

-- A transaction's outcome: a result with the new tables, or an error with the old ones.
pub data Result {ℓ} (A : Type ℓ) : Type ℓ where
  ok : A → Result A
  err : Failure → Result A

-- The state after a transaction: `with pool.connection()` commits, or rolls back on an exception.
abbrev pub after {ℓ} : {A : Type ℓ} → Db → Result (A × Db) → Db
after db (ok (a, db')) = db'
after db (err e) = db

-- TERMINAL
abbrev pub is_terminal : Status → Bool
is_terminal completed = true
is_terminal completed_with_errors = true
is_terminal failed = true
is_terminal cancelled = true
is_terminal queued = false
is_terminal running = false
is_terminal retrying = false

-- status='running'
abbrev pub is_running : Status → Bool
is_running running = true
is_running queued = false
is_running retrying = false
is_running completed = false
is_running completed_with_errors = false
is_running failed = false
is_running cancelled = false

-- status IN ('queued','retrying')
abbrev pub is_waiting : Status → Bool
is_waiting queued = true
is_waiting retrying = true
is_waiting running = false
is_waiting completed = false
is_waiting completed_with_errors = false
is_waiting failed = false
is_waiting cancelled = false

abbrev pub is_stopped : WorkerStatus → Bool
is_stopped stopped = true
is_stopped idle = false
is_stopped busy = false

-- The two CHECKs of `jobs` on a lease: a running row has a worker and an expiry, any other neither.
abbrev pub lease_check : Job → Bool
lease_check j =
    if is_running j.status
    then is_some j.worker_id && is_some j.lease_expires_at
    else (not (is_some j.worker_id) && not (is_some j.lease_expires_at))
