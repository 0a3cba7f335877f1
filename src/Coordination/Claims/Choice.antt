-- ===== src/Coordination/Claims/Choice.antt =====
-- Which job a claim looks at first.
use repomesh.Prelude.{ℕ, ◌≡◌, some, All}
use repomesh.Table.Finds.{Found}
use repomesh.Coordination.Schema.{Db, Job}
use repomesh.Coordination.Claims.{Locks, is_candidate, candidate}
use repomesh.Coordination.Claims.Order.{NoneBefore, best_of-Found, best_of-first}

-- The candidate is a stored job that is due, free and unlocked, and no such job comes before it in
-- the order of the query.
pub record IsFirst (now : ℕ) (locks : Locks) (db : Db) (row : Job) : Type 0 where
  pub found : Found (is_candidate now locks db) db.jobs.row row
  pub first : All (NoneBefore (is_candidate now locks db) db.jobs.row row) db.jobs.keys

-- A claim's candidate is due, free and unlocked, and of all such jobs none has a higher priority,
-- or at equal priority was available earlier, then created earlier, then has a smaller id.
pub candidate-IsFirst :
    (now : ℕ) (locks : Locks) (db : Db) (row : Job)
    → candidate now locks db ≡ some row
    → IsFirst now locks db row
unfolding candidate
candidate-IsFirst now locks db row h = record {
  found = best_of-Found (is_candidate now locks db) db.jobs.row db.jobs.keys row h;
  first = best_of-first (is_candidate now locks db) db.jobs.row db.jobs.keys row h;
}
