-- ===== src/Coordination/Invariant.antt =====
-- What holds of the tables `jobs`, `repository_execution` and `job_attempts` between transactions.
pub mod Moves
pub mod Inserts
pub mod Held
pub mod Claiming
pub mod Requests
pub mod Watching
use repomesh.Prelude.{ℕ, ◌≤◌, ◌≡◌, Bool, true, Option, some}
use repomesh.Table.{Table}
use repomesh.Coordination.Schema.{
  Db, Job, Execution, Attempt, Result, ok, err, after, lease_check, is_running,
}

-- The CHECKs on one row, and the budget of attempts.
pub record JobOk (j : Job) : Type 0 where
  pub lease : lease_check j ≡ true
  pub budget : j.attempt ≤ j.max_attempts

abbrev pub reservation : ℕ → Execution
reservation k = record { active_job_id = some k }

-- A row of `job_attempts` belongs to a job, at a generation that the job has reached.
pub record Reached (jobs : Table ℕ Job) (k g : ℕ) : Type 0 where
  pub job : Job
  pub found : jobs.row k ≡ some job
  pub reached : g ≤ job.lease_generation

-- The job that reserves a repository is running there.
pub record Holds (jobs : Table ℕ Job) (r k : ℕ) : Type 0 where
  pub job : Job
  pub found : jobs.row k ≡ some job
  pub is_active : is_running job.status ≡ true
  pub at_home : job.repository_id ≡ r

-- The foreign key from `jobs` to `repository_execution`.
pub record HasHome (executions : Table ℕ Execution) (r : ℕ) : Type 0 where
  pub execution : Execution
  pub found : executions.row r ≡ some execution

pub record Inv (jobs : Table ℕ Job) (executions : Table ℕ Execution)
    (attempts : Table (ℕ × ℕ) Attempt) : Type 0 where
  pub keyed : (k : ℕ) (j : Job) → jobs.row k ≡ some j → j.id ≡ k
  pub sound : (k : ℕ) (j : Job) → jobs.row k ≡ some j → JobOk j
  pub housed : (k : ℕ) (j : Job) → jobs.row k ≡ some j → HasHome executions j.repository_id
  pub reserved :
      (k : ℕ) (j : Job)
      → jobs.row k ≡ some j
      → is_running j.status ≡ true
      → executions.row j.repository_id ≡ some (reservation k)
  pub holder : (r k : ℕ) → executions.row r ≡ some (reservation k) → Holds jobs r k
  pub fenced : (k g : ℕ) (a : Attempt) → attempts.row (k, g) ≡ some a → Reached jobs k g

abbrev pub Consistent : Db → Type 0
Consistent db = Inv db.jobs db.executions db.attempts

-- An outcome that leaves consistent tables does so from any consistent start.
pub after-Consistent {ℓ} :
    {A : Type ℓ} (db old : Db) (r : Result (A × Db))
    → Consistent old
    → Consistent (after db r)
    → Consistent (after old r)
after-Consistent db old (ok (a, new)) v w = w
after-Consistent db old (err e) v w = v
