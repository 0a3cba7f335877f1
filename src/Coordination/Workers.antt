-- ===== src/Coordination/Workers.antt =====
-- coordination/repository.py: the registry of workers (register_worker, heartbeat_worker,
-- stop_worker, list_workers).
use repomesh.Prelude.{
  ℕ, ◌+◌, Bool, not, ◌&&◌, ◌||◌, Option, none, some, ltb, ◌==◌, is_some, if◌then◌else◌,
}
use repomesh.Table.{put, insert, update_at, id_eq, pair_eq}
use repomesh.Coordination.Schema.{
  Db, Worker, WorkerStatus, idle, busy, stopped, Settings, Result, ok, err, lease_lost,
  worker_identity_in_use, is_stopped,
}

-- last_seen_at < clock_timestamp() - worker_offline_seconds
unfoldable pub is_offline : Settings → ℕ → Worker → Bool
is_offline s now w = ltb (w.last_seen_at + s.worker_offline) now

-- `session` is the uuid4 of the new registration; its result is the session.
unfoldable pub register_worker : Settings → ℕ → ℕ → ℕ → ℕ → ℕ → ℕ → Db → Result (ℕ × Db)
unfolding is_offline
register_worker s now session worker hostname pid version db = elim (db.workers.row worker) [
  | none ↦ ok (session, record db { workers = insert worker first db.workers })
  | some old ↦
      if is_stopped old.worker_status || is_offline s now old
      then ok (session, record db { workers = put worker (again old) db.workers })
      else err worker_identity_in_use
]
  where
    first : Worker
    first = record {
      session_id = session;
      hostname = hostname;
      pid = pid;
      version = version;
      worker_status = idle;
      started_at = now;
      last_seen_at = now;
      current_job_id = none;
      completed_jobs = 0;
      failed_jobs = 0;
    }

    again : Worker → Worker
    again old = record first { completed_jobs = old.completed_jobs; failed_jobs = old.failed_jobs }

-- worker_id = … AND session_id = … AND status != 'stopped'
unfoldable pub in_session : ℕ → Worker → Bool
in_session session w = w.session_id == session && not (is_stopped w.worker_status)

unfoldable pub beat : ℕ → Option ℕ → Worker → Worker
beat now current w = record w {
  last_seen_at = now;
  worker_status = if is_some current then busy else idle;
  current_job_id = current;
}

-- A job's id is never the empty text, so `if current_job` asks for its presence.
unfoldable pub heartbeat_worker : ℕ → ℕ → ℕ → Option ℕ → Db → Result (Unit {0} × Db)
unfolding in_session beat
heartbeat_worker now worker session current db = elim (db.workers.row worker) [
  | none ↦ err lease_lost
  | some w ↦
      if in_session session w
      then ok (tt, record db { workers = put worker (beat now current w) db.workers })
      else err lease_lost
]

unfoldable pub stop_worker : ℕ → ℕ → ℕ → Db → Result (Unit {0} × Db)
stop_worker now worker session db =
    ok (tt, record db { workers = update_at worker (λ w. w.session_id == session) halt db.workers })
  where
    halt : Worker → Worker
    halt w = record w { worker_status = stopped; current_job_id = none; last_seen_at = now }

pub data ShownStatus : Type 0 where
  offline : ShownStatus
  registered : WorkerStatus → ShownStatus

-- The CASE of list_workers.
unfoldable pub shown_status : Settings → ℕ → Worker → ShownStatus
unfolding is_offline
shown_status s now w =
    if not (is_stopped w.worker_status) && is_offline s now w
    then offline
    else registered w.worker_status
