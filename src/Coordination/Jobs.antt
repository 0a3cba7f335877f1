-- ===== src/Coordination/Jobs.antt =====
-- coordination/repository.py: submit_job, get_job, resubmit_job and request_cancel.
use repomesh.Prelude.{
  ℕ, Bool, true, false, not, ◌&&◌, Option, none, some, ◌==◌, is_id, is_some, if◌then◌else◌,
}
use repomesh.Prelude.Int.{ℤ, pos, same_ℤ}
use repomesh.Table.{put, insert, ensure, update_where, find_where, id_eq, pair_eq}
use repomesh.Coordination.Schema.{
  Db, Job, Stats, Execution, Watch, queued, cancelled, Mode, full, incremental, unknown, manual,
  retry, Settings, Result, ok, err, value_error, lookup_error, unique_violation,
  foreign_key_violation, is_terminal, is_waiting,
}

abbrev pub no_stats : Stats
no_stats = record {
  total_files = 0;
  indexed_files = 0;
  indexed_chunks = 0;
  deleted_files = 0;
  skipped_files = 0;
  error_count = 0;
}

-- The columns that an INSERT into `jobs` leaves to their defaults.
abbrev pub default_job : ℕ → ℕ → ℕ → Mode → ℕ → Job
default_job now id repository mode max_attempts = record {
  id = id;
  repository_id = repository;
  mode = mode;
  trigger = manual;
  parent_job_id = none;
  status = queued;
  priority = pos 0;
  attempt = 0;
  max_attempts = max_attempts;
  idempotency_key = none;
  worker_id = none;
  lease_generation = 0;
  created_at = now;
  updated_at = now;
  available_at = now;
  started_at = none;
  completed_at = none;
  heartbeat_at = none;
  lease_expires_at = none;
  cancel_requested = false;
  progress_done = 0;
  stats = no_stats;
  error = none;
}

abbrev pub no_execution : Execution
no_execution = record { active_job_id = none }

abbrev pub is_known : Mode → Bool
is_known full = true
is_known incremental = true
is_known unknown = false

abbrev pub same_mode : Mode → Mode → Bool
same_mode full full = true
same_mode incremental incremental = true
same_mode unknown unknown = true
same_mode _ _ = false

-- INSERT INTO jobs, with its primary key and its reference to `repository_execution` checked.
unfoldable pub insert_job : Job → Db → Result (Job × Db)
insert_job job db =
    if is_some (db.jobs.row job.id)
    then err unique_violation
    else if not (is_some (db.executions.row job.repository_id))
    then err foreign_key_violation
    else ok (job, record db { jobs = insert job.id job db.jobs })

unfoldable pub has_key : Option ℕ → Job → Bool
has_key none job = false
has_key (some key) job = is_id job.idempotency_key key

unfoldable pub same_request : ℕ → Mode → ℤ → Job → Bool
same_request repository mode priority job =
    job.repository_id == repository && same_mode job.mode mode && same_ℤ job.priority priority

abbrev pub valid_request : Mode → Option ℕ → Bool
valid_request mode none = is_known mode
valid_request mode (some key) = is_known mode && not (key == 0)

-- INSERT INTO repository_execution … ON CONFLICT DO NOTHING
unfoldable pub ensure_execution : ℕ → Db → Db
ensure_execution repository db = record db {
  executions = ensure repository no_execution db.executions;
}

abbrev pub requested_job : Settings → ℕ → ℕ → ℕ → Mode → Option ℕ → ℤ → Job
requested_job s now fresh repository mode key priority =
    record (default_job now fresh repository mode s.job_max_retries) {
      idempotency_key = key;
      priority = priority;
    }

-- `fresh` is the uuid4 of the new row. The row that used the key first must ask for the same work.
unfoldable pub submit_job : Settings → ℕ → ℕ → ℕ → Mode → Option ℕ → ℤ → Db → Result (Job × Db)
unfolding insert_job has_key same_request ensure_execution
submit_job s now fresh repository mode key priority db =
    if valid_request mode key
    then (elim (find_where (has_key key) db.jobs) [
      | some job ↦
          if same_request repository mode priority job
          then ok (job, ensure_execution repository db)
          else err value_error
      | none ↦
          insert_job (requested_job s now fresh repository mode key priority)
            (ensure_execution repository db)
    ])
    else err value_error

unfoldable pub get_job : ℕ → Db → Option Job
get_job id db = db.jobs.row id

unfoldable pub is_child_of : ℕ → Job → Bool
is_child_of id job = is_id job.parent_job_id id

unfoldable pub follow : ℕ → ℕ → Watch → Watch
follow old new watch =
    if is_id watch.last_job_id old then record watch { last_job_id = some new } else watch

-- UPDATE repository_watches SET last_job_id = the successor WHERE last_job_id = the old job
unfoldable pub track_successor : ℕ → Result (Job × Db) → Result (Job × Db)
unfolding follow
track_successor old (ok (job, db)) =
    ok (job, record db { watches = update_where (λ w. true) (follow old job.id) db.watches })
track_successor old (err e) = err e

abbrev pub child_job : Settings → ℕ → ℕ → Job → Job
child_job s now fresh old =
    record (default_job now fresh old.repository_id incremental s.job_max_retries) {
      priority = old.priority;
      trigger = retry;
      parent_job_id = some old.id;
    }

unfoldable pub successor : Settings → ℕ → ℕ → Job → Db → Result (Job × Db)
unfolding insert_job is_child_of
successor s now fresh old db = elim (find_where (is_child_of old.id) db.jobs) [
  | some job ↦ ok (job, db)
  | none ↦ insert_job (child_job s now fresh old) db
]

unfoldable pub resubmit_job : Settings → ℕ → ℕ → ℕ → Db → Result (Job × Db)
unfolding track_successor successor
resubmit_job s now fresh id db = elim (db.jobs.row id) [
  | none ↦ err lookup_error
  | some old ↦
      if is_terminal old.status
      then track_successor id (successor s now fresh old db)
      else err value_error
]

-- The UPDATE of request_cancel: waiting work ends at once, running work sees the flag.
unfoldable pub flag_cancel : ℕ → Job → Job
flag_cancel now job = record job {
  cancel_requested = true;
  updated_at = now;
  status = if is_waiting job.status then cancelled else job.status;
  completed_at = if is_waiting job.status then some now else job.completed_at;
}

unfoldable pub request_cancel : ℕ → ℕ → Db → Result (Job × Db)
unfolding flag_cancel
request_cancel now id db = elim (db.jobs.row id) [
  | none ↦ err value_error
  | some job ↦
      if is_terminal job.status
      then ok (job, db)
      else ok (flag_cancel now job, record db { jobs = put id (flag_cancel now job) db.jobs })
]
