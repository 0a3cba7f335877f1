-- ===== src/Coordination/Claims.antt =====
-- coordination/repository.py: claim_job. A transaction reads the clock once, as `now`.
pub mod Order
pub mod Choice
use repomesh.Prelude.{
  ℕ, zero, suc, ◌+◌, Bool, true, false, not, ◌&&◌, ◌||◌, Option, none, some, List, [], ◌∷◌, ltb,
  leb, ◌==◌, is_id, is_some, get_or, if◌then◌else◌,
}
use repomesh.Prelude.Int.{ltb_ℤ}
use repomesh.Table.{Table, put, insert, update_at, find_where, id_eq, pair_eq}
use repomesh.Coordination.Schema.{
  Db, Job, Execution, Worker, Attempt, Message, Outcome, expired, ended, Status, running, failed,
  cancelled, idle, busy, Settings, Result, ok, err, lease_lost, unique_violation, is_running,
  is_waiting,
}
use repomesh.Coordination.Jobs.{no_stats}
use repomesh.Coordination.Workers.{in_session}

-- The rows that other transactions hold, which SKIP LOCKED passes over.
pub record Locks : Type 0 where
  pub job_locked : ℕ → Bool
  pub repository_locked : ℕ → Bool

abbrev pub no_locks : Locks
no_locks = record { job_locked = λ k. false; repository_locked = λ k. false }

-- lease_expires_at <= clock_timestamp()
abbrev pub is_past : Option ℕ → ℕ → Bool
is_past none now = false
is_past (some t) now = leb t now

-- r.active_job_id IS NULL OR r.active_job_id = j.id, where the join finds a row.
abbrev pub is_free_for : Option Execution → ℕ → Bool
is_free_for none id = false
is_free_for (some e) id = elim e.active_job_id [ none ↦ true | some a ↦ a == id ]

-- Work that is due: waiting and available, or running with an expired lease.
unfoldable pub is_due : ℕ → Job → Bool
is_due now j =
    is_waiting j.status && leb j.available_at now
    || is_running j.status && is_past j.lease_expires_at now

-- The WHERE of the candidate query, and its locks.
unfoldable pub is_candidate : ℕ → Locks → Db → Job → Bool
unfolding is_due
is_candidate now locks db j =
    is_free_for (db.executions.row j.repository_id) j.id
    && is_due now j
    && not (locks.job_locked j.id)
    && not (locks.repository_locked j.repository_id)

-- Two sort keys, the second where the first is equal.
abbrev pub then_by : (Job → Job → Bool) → (Job → Job → Bool) → Job → Job → Bool
then_by first second a b = if first a b then true else if first b a then false else second a b

abbrev pub by_priority : Job → Job → Bool
by_priority a b = ltb_ℤ b.priority a.priority

abbrev pub by_available_at : Job → Job → Bool
by_available_at a b = ltb a.available_at b.available_at

abbrev pub by_created_at : Job → Job → Bool
by_created_at a b = ltb a.created_at b.created_at

abbrev pub by_id : Job → Job → Bool
by_id a b = ltb a.id b.id

-- ORDER BY priority DESC, available_at, created_at, id
unfoldable pub is_before : Job → Job → Bool
is_before = then_by by_priority (then_by by_available_at (then_by by_created_at by_id))

unfoldable pub earlier : Job → Option Job → Option Job
earlier j none = some j
earlier j (some b) = if is_before b j then some b else some j

abbrev pub consider : (Job → Bool) → Option Job → Option Job → Option Job
consider p none rest = rest
consider p (some j) rest = if p j then earlier j rest else rest

-- LIMIT 1 of the ordered candidates
unfoldable pub best_of : (Job → Bool) → (ℕ → Option Job) → List ℕ → Option Job
best_of p row [] = none
best_of p row (k ∷ ks) = consider p (row k) (best_of p row ks)

unfoldable pub candidate : ℕ → Locks → Db → Option Job
candidate now locks db = best_of (is_candidate now locks db) db.jobs.row db.jobs.keys

abbrev still_open : Attempt → Bool
still_open a = not (is_some a.ended_at)

-- The attempt of an expired lease is closed.
unfoldable pub close_expired : ℕ → Job → Db → Db
close_expired now row db =
    if is_running row.status
    then record db {
      attempts = update_at (row.id, row.lease_generation) still_open close db.attempts;
    }
    else db
  where
    close : Attempt → Attempt
    close a = record a { ended_at = some now; outcome = some expired }

unfoldable pub is_spent : Job → Bool
is_spent row = row.cancel_requested || leb row.max_attempts row.attempt

abbrev pub spent_status : Job → Status
spent_status row = if row.cancel_requested then cancelled else failed

-- "attempt budget exhausted after lease expiry", as a parameter.
unfoldable pub end_spent : Message → ℕ → Job → Job
end_spent exhausted now row = record row {
  status = spent_status row;
  worker_id = none;
  lease_expires_at = none;
  completed_at = some now;
  updated_at = now;
  error = if row.cancel_requested then none else some exhausted;
}

abbrev count_failure : Job → Worker → Worker
count_failure row w = record w {
  failed_jobs = w.failed_jobs + (if row.cancel_requested then 0 else 1);
  current_job_id = none;
  worker_status = idle;
}

abbrev set_outcome : Outcome → Attempt → Attempt
set_outcome outcome a = record a { outcome = some outcome }

abbrev pub set_active : Option ℕ → Execution → Execution
set_active active e = record e { active_job_id = active }

abbrev clear_worker : Job → Table ℕ Worker → Option ℕ → Table ℕ Worker
clear_worker row workers none = workers
clear_worker row workers (some w) =
    update_at w (λ v. is_id v.current_job_id row.id) (count_failure row) workers

-- A candidate that is cancelled or out of attempts becomes terminal.
unfoldable pub close_spent : Message → ℕ → Job → Db → Db
unfolding end_spent
close_spent exhausted now row db = record db {
  jobs = put row.id (end_spent exhausted now row) db.jobs;
  executions = update_at row.repository_id (λ e. true) (set_active none) db.executions;
  attempts =
      if is_running row.status
      then update_at (row.id, row.lease_generation) (λ a. true)
          (set_outcome (ended (spent_status row))) db.attempts
      else db.attempts;
  workers = if is_running row.status then clear_worker row db.workers row.worker_id else db.workers;
}

unfoldable pub claimed : Settings → ℕ → ℕ → Job → Job
claimed s now worker row = record row {
  status = running;
  worker_id = some worker;
  lease_generation = row.lease_generation + 1;
  attempt = row.attempt + 1;
  heartbeat_at = some now;
  lease_expires_at = some (now + s.job_lease);
  started_at = some (get_or row.started_at now);
  updated_at = now;
  progress_done = 0;
  stats = no_stats;
  error = none;
}

-- The partial unique index one_running_job_per_repository: another running row of the repository.
unfoldable pub is_rival : Job → Job → Bool
is_rival row j = is_running j.status && j.repository_id == row.repository_id && not (j.id == row.id)

unfoldable pub new_attempt : Settings → ℕ → ℕ → Job → Attempt
new_attempt s now worker row = record {
  worker_id = worker;
  attempt = row.attempt + 1;
  claimed_at = now;
  lease_expires_at = now + s.job_lease;
  ended_at = none;
  outcome = none;
  reclaimed = is_running row.status;
  error = none;
}

abbrev pub start_work : ℕ → Job → Worker → Worker
start_work now row w = record w {
  worker_status = busy;
  current_job_id = some row.id;
  last_seen_at = now;
}

abbrev pub has_session : ℕ → Option Worker → Bool
has_session session none = false
has_session session (some w) = w.session_id == session

-- The claim proper: the job, its repository's reservation, its attempt and the worker together.
unfoldable pub taken_db : Settings → ℕ → ℕ → ℕ → Job → Db → Db
unfolding claimed new_attempt
taken_db s now worker session row db = record db {
  jobs = put row.id (claimed s now worker row) db.jobs;
  executions = update_at row.repository_id (λ e. true) (set_active (some row.id)) db.executions;
  attempts = insert (row.id, row.lease_generation + 1) (new_attempt s now worker row) db.attempts;
  workers = update_at worker (λ w. w.session_id == session) (start_work now row) db.workers;
}

unfoldable pub take_job : Settings → ℕ → ℕ → ℕ → Job → Db → Result (Option Job × Db)
unfolding claimed is_rival
take_job s now worker session row db =
    if is_some (find_where (is_rival row) db.jobs)
    then err unique_violation
    else if is_some (db.attempts.row (row.id, row.lease_generation + 1))
    then err unique_violation
    else if has_session session (db.workers.row worker)
    then ok (some (claimed s now worker row), taken_db s now worker session row db)
    else err lease_lost

-- The rounds of `for _ in range(32)`.
unfoldable pub claim_loop :
    ℕ → Settings → Message → ℕ → Locks → ℕ → ℕ → Db → Result (Option Job × Db)
claim_loop zero s exhausted now locks worker session db = ok (none, db)
claim_loop (suc n) s exhausted now locks worker session db = elim (candidate now locks db) [
  | none ↦ ok (none, db)
  | some row ↦
      let closed = close_expired now row db in
      let rest =
        claim_loop n s exhausted now locks worker session (close_spent exhausted now row closed) in
      if is_spent row then rest else take_job s now worker session row closed
]

unfoldable pub claim_job : Settings → Message → ℕ → Locks → ℕ → ℕ → Db → Result (Option Job × Db)
unfolding in_session
claim_job s exhausted now locks worker session db = elim (db.workers.row worker) [
  | none ↦ err lease_lost
  | some w ↦
      if in_session session w
      then claim_loop 32 s exhausted now locks worker session db
      else err lease_lost
]
