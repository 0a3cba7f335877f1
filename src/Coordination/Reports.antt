-- ===== src/Coordination/Reports.antt =====
-- coordination/repository.py: the queries that report, latest_job, list_jobs, job_history,
-- list_workers and snapshot.
use repomesh.Prelude.{
  ℕ, suc, ◌+◌, ◌-◌, Bool, true, false, not, ◌&&◌, ◌||◌, Option, none, some, is_some, List, [], ◌∷◌,
  ◌==◌, ltb, leb, map, length, take, drop, filter, sort_by, if◌then◌else◌,
}
use repomesh.Coordination.Schema.{
  Db, Job, Worker, Attempt, FileError, expired, ended, Status, queued, running, retrying, completed,
  completed_with_errors, failed, cancelled, Settings, is_running, is_waiting, is_stopped,
}
use repomesh.Coordination.Workers.{ShownStatus, shown_status}
use repomesh.Coordination.Claims.{then_by}
use repomesh.Coordination.Leases.{is_future}

abbrev row_in : {R : Type 0} → Option R → List R → List R
row_in none rows = rows
row_in (some r) rows = r ∷ rows

-- The rows of a table in the order of insertion.
unfoldable pub rows : {K R : Type 0} → (K → Option R) → List K → List R
rows row [] = []
rows row (k ∷ ks) = row_in (row k) (rows row ks)

abbrev pub all_jobs : Db → List Job
all_jobs db = rows db.jobs.row db.jobs.keys

-- ORDER BY created_at DESC, id DESC
unfoldable pub is_newer : Job → Job → Bool
is_newer = then_by (λ a b. ltb b.created_at a.created_at) (λ a b. ltb b.id a.id)

abbrev first_of : {A : Type 0} → List A → Option A
first_of [] = none
first_of (x ∷ xs) = some x

-- ORDER BY created_at DESC LIMIT 1; of several newest rows the one with the largest id.
unfoldable pub latest_job : ℕ → Db → Option Job
unfolding rows is_newer
latest_job repository db =
    first_of (sort_by is_newer (filter (λ j. j.repository_id == repository) (all_jobs db)))

abbrev pub same_status : Status → Status → Bool
same_status queued queued = true
same_status running running = true
same_status retrying retrying = true
same_status completed completed = true
same_status completed_with_errors completed_with_errors = true
same_status failed failed = true
same_status cancelled cancelled = true
same_status _ _ = false

-- The `status` of a request: absent, 'active' or a status.
pub data StatusFilter : Type 0 where
  any_status active : StatusFilter
  only : Status → StatusFilter

abbrev pub passes_status : StatusFilter → Status → Bool
passes_status any_status s = true
passes_status active s = is_waiting s || is_running s
passes_status (only t) s = same_status s t

-- `if repository_id`: neither None nor empty.
abbrev pub passes_repository : Option ℕ → Job → Bool
passes_repository none j = true
passes_repository (some r) j = r == 0 || j.repository_id == r

unfoldable pub is_listed : Option ℕ → StatusFilter → Job → Bool
is_listed repository status j = passes_repository repository j && passes_status status j.status

pub record Page : Type 0 where
  pub jobs : List Job
  pub total : ℕ
  pub limit : ℕ
  pub offset : ℕ

unfoldable pub listed_jobs : Option ℕ → StatusFilter → Db → List Job
unfolding rows is_listed
listed_jobs repository status db = filter (is_listed repository status) (all_jobs db)

unfoldable pub list_jobs : Option ℕ → StatusFilter → ℕ → ℕ → Db → Page
unfolding listed_jobs is_newer
list_jobs repository status limit offset db = record {
  jobs = take limit (drop offset (sort_by is_newer (listed_jobs repository status db)));
  total = length (listed_jobs repository status db);
  limit = limit;
  offset = offset;
}

-- A row of job_attempts with its key.
abbrev Numbered : Type 0
Numbered = ℕ × Attempt

abbrev numbered_in : ℕ → ℕ × ℕ → Option Attempt → List Numbered → List Numbered
numbered_in id (job, generation) none rest = rest
numbered_in id (job, generation) (some a) rest =
    if job == id then ((generation, a) ∷ rest) else rest

unfoldable pub attempts_in : ℕ → (ℕ × ℕ → Option Attempt) → List (ℕ × ℕ) → List Numbered
attempts_in id row [] = []
attempts_in id row (k ∷ ks) = numbered_in id k (row k) (attempts_in id row ks)

abbrev earlier_attempt : Numbered → Numbered → Bool
earlier_attempt (g, a) (h, b) = ltb g h

-- ORDER BY created_at DESC, file_path
unfoldable pub error_before : FileError → FileError → Bool
error_before a b =
    if ltb b.created_at a.created_at
    then true
    else if ltb a.created_at b.created_at
    then false
    else ltb a.file_path b.file_path

pub record History : Type 0 where
  pub attempts : List Numbered
  pub file_errors : List FileError
  pub file_error_total : ℕ

abbrev pub errors_of : ℕ → Db → List FileError
errors_of id db = filter (λ e. e.job_id == id) db.file_errors

unfoldable pub job_history : ℕ → Db → Option History
unfolding attempts_in error_before
job_history id db =
    if is_some (db.jobs.row id)
    then some (record {
      attempts = sort_by earlier_attempt (attempts_in id db.attempts.row db.attempts.keys);
      file_errors = take 200 (sort_by error_before (errors_of id db));
      file_error_total = length (errors_of id db);
    })
    else none

-- A worker with the status that list_workers shows.
pub record ShownWorker : Type 0 where
  pub worker : Worker
  pub status : ShownStatus

unfoldable pub list_workers : Settings → ℕ → Db → List ShownWorker
unfolding rows
list_workers s now db =
    map (λ w. record { worker = w; status = shown_status s now w })
      (sort_by (λ a b. ltb a.started_at b.started_at) (rows db.workers.row db.workers.keys))

unfoldable pub count : {A : Type 0} → (A → Bool) → List A → ℕ
count p [] = 0
count p (x ∷ xs) = let rest = count p xs in if p x then suc rest else rest

abbrev has_outcome : (Status → Bool) → Attempt → Bool
has_outcome p a = elim a.outcome [ none ↦ false | some expired ↦ false | some (ended s) ↦ p s ]

abbrev is_done : Status → Bool
is_done completed = true
is_done completed_with_errors = true
is_done _ = false

-- The seconds of an attempt that has ended are in the bucket up to `bound` microseconds.
abbrev in_bucket : ℕ → Attempt → Bool
in_bucket bound a = elim a.ended_at [ none ↦ false | some t ↦ leb t (a.claimed_at + bound) ]

abbrev duration : Attempt → ℕ
duration a = elim a.ended_at [ none ↦ 0 | some t ↦ t - a.claimed_at ]

unfoldable pub sum_durations : List Attempt → ℕ
sum_durations [] = 0
sum_durations (a ∷ rest) = duration a + sum_durations rest

pub record Durations : Type 0 where
  pub count_ended : ℕ
  pub sum : ℕ
  pub b1 : ℕ
  pub b5 : ℕ
  pub b10 : ℕ
  pub b30 : ℕ
  pub b60 : ℕ
  pub b300 : ℕ
  pub b900 : ℕ

pub record Snapshot : Type 0 where
  pub queue_depth : ℕ
  pub active_jobs : ℕ
  pub active_leases : ℕ
  pub active_workers : ℕ
  pub claimed : ℕ
  pub completed_attempts : ℕ
  pub failed_attempts : ℕ
  pub retried : ℕ
  pub reclaimed : ℕ
  pub durations : Durations

unfoldable pub durations_of : List Attempt → Durations
unfolding count sum_durations
durations_of attempts = record {
  count_ended = count (λ a. is_some a.ended_at) attempts;
  sum = sum_durations attempts;
  b1 = count (in_bucket 1_000_000) attempts;
  b5 = count (in_bucket 5_000_000) attempts;
  b10 = count (in_bucket 10_000_000) attempts;
  b30 = count (in_bucket 30_000_000) attempts;
  b60 = count (in_bucket 60_000_000) attempts;
  b300 = count (in_bucket 300_000_000) attempts;
  b900 = count (in_bucket 900_000_000) attempts;
}

unfoldable pub snapshot : Settings → ℕ → Db → Snapshot
unfolding rows count durations_of
snapshot s now db =
    let jobs = all_jobs db in
    let attempts = rows db.attempts.row db.attempts.keys in
    record {
      queue_depth = count (λ j. is_waiting j.status) jobs;
      active_jobs = count (λ j. is_running j.status) jobs;
      active_leases = count (λ j. is_running j.status && is_future j.lease_expires_at now) jobs;
      active_workers =
          count
            (λ w. not (is_stopped w.worker_status) && ltb now (w.last_seen_at + s.worker_offline))
            (rows db.workers.row db.workers.keys);
      claimed = length attempts;
      completed_attempts = count (has_outcome is_done) attempts;
      failed_attempts = count (has_outcome (same_status failed)) attempts;
      retried = count (has_outcome (same_status retrying)) attempts;
      reclaimed = count (λ a. a.reclaimed) attempts;
      durations = durations_of attempts;
    }
