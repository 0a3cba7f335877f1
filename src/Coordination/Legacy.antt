-- ===== src/Coordination/Legacy.antt =====
-- coordination/repository.py: import_legacy_jobs, the import of the jobs of an older installation.
pub mod Rows
pub mod Imports
use repomesh.Prelude.{
  ℕ, suc, ◌+◌, max, Bool, true, false, not, ◌&&◌, ◌||◌, Option, none, some, is_some, List, [], ◌∷◌,
  if◌then◌else◌,
}
use repomesh.Table.{insert, find_where, id_eq}
use repomesh.Coordination.Schema.{
  Db, Job, Stats, Status, queued, cancelled, Mode, Message, Settings, Result, ok, err,
  check_violation, is_terminal,
}
use repomesh.Coordination.Jobs.{default_job, is_known, has_key, ensure_execution}

-- A row of the older table.
pub record OldJob : Type 0 where
  pub id : ℕ
  pub repository_id : ℕ
  pub mode : Mode
  pub status : Status
  pub attempt : ℕ
  pub idempotency_key : Option ℕ
  pub created_at : ℕ
  pub updated_at : ℕ
  pub cancel_requested : Bool
  pub error : Option Message
  pub stats : Stats
  pub progress_done : ℕ

-- A job that had not ended waits again, or is cancelled where that was asked for.
unfoldable pub imported_status : OldJob → Status
imported_status old =
    if is_terminal old.status
    then old.status
    else if old.cancel_requested
    then cancelled
    else queued

unfoldable pub imported_job : Settings → ℕ → OldJob → Job
unfolding imported_status
imported_job s now old =
    record (default_job now old.id old.repository_id old.mode
      (max s.job_max_retries (max (old.attempt + 1) 2))) {
        status = imported_status old;
        attempt = if is_terminal old.status then old.attempt else max 1 old.attempt;
        idempotency_key = old.idempotency_key;
        created_at = old.created_at;
        updated_at = old.updated_at;
        cancel_requested = old.cancel_requested;
        error = old.error;
        stats = old.stats;
        progress_done = old.progress_done;
        completed_at =
            if is_terminal old.status || old.cancel_requested then some old.updated_at else none;
      }

-- ON CONFLICT: the id or the idempotency key is there.
unfoldable pub has_conflict : OldJob → Db → Bool
unfolding has_key
has_conflict old db =
    is_some (db.jobs.row old.id) || is_some (find_where (has_key old.idempotency_key) db.jobs)

-- One round of the loop: whether the row was inserted. The CHECK of `mode` comes before a conflict.
unfoldable pub import_job : Settings → ℕ → OldJob → Db → Result (Bool × Db)
unfolding has_conflict imported_job ensure_execution
import_job s now old db =
    if not (is_known old.mode)
    then err check_violation
    else if has_conflict old db
    then ok (false, ensure_execution old.repository_id db)
    else ok (
      true,
      record (ensure_execution old.repository_id db) {
        jobs = insert old.id (imported_job s now old) db.jobs;
      },
    )

abbrev pub counting : Bool → Result (ℕ × Db) → Result (ℕ × Db)
counting new (err e) = err e
counting false (ok (n, db)) = ok (n, db)
counting true (ok (n, db)) = ok (suc n, db)

-- All rows are one transaction: the count of those inserted, or an error.
unfoldable pub import_legacy_jobs : Settings → ℕ → List OldJob → Db → Result (ℕ × Db)
unfolding import_job
import_legacy_jobs s now [] db = ok (0, db)
import_legacy_jobs s now (old ∷ rest) db = elim (import_job s now old db) [
  | err e ↦ err e
  | ok (new, next) ↦ counting new (import_legacy_jobs s now rest next)
]
