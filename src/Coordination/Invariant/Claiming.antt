-- ===== src/Coordination/Invariant/Claiming.antt =====
-- One round of claim_job: the candidate, the close of a spent job, and the claim proper.
pub mod Loop
use repomesh.Prelude.{
  ℕ, zero, suc, ◌+◌, ◌≤◌, ◌≡◌, ◌≢◌, ◌==◌, refl, Bool, true, false, Option, none, some, arith,
  Bool-cases, Option-cases, inl, inr, if◌then◌else◌, is_id, is_some,
}
use repomesh.Table.{Table, put, insert, update_at, find_where, id_eq, pair_eq}
use repomesh.Table.Finds.{Found, find_where-Found}
use repomesh.Coordination.Schema.{
  Db, Job, Execution, Attempt, Message, Status, Settings, Result, ok, err, lease_lost,
  unique_violation, after, is_running,
}
use repomesh.Coordination.Jobs.{no_execution}
use repomesh.Coordination.Claims.{
  Locks, is_free_for, is_due, is_candidate, candidate, close_expired, is_spent, end_spent,
  close_spent, claimed, is_rival, take_job, taken_db, claim_loop, claim_job, set_active,
  has_session,
}
use repomesh.Coordination.Workers.{in_session}
use repomesh.Coordination.Claims.Order.{best_of-Found}
use repomesh.Coordination.Invariant.{JobOk, Inv, Consistent, Reached, reservation}
use repomesh.Coordination.Invariant.Moves.{Version, release-Inv, acquire-Inv}
use repomesh.Coordination.Invariant.Inserts.{update_attempt-Inv, insert_attempt-Inv}

-- What the candidate query says of the row that it returns.
pub record Chosen (now : ℕ) (locks : Locks) (db : Db) (row : Job) : Type 0 where
  pub found : db.jobs.row row.id ≡ some row
  pub free : is_free_for (db.executions.row row.repository_id) row.id ≡ true
  pub due : is_due now row ≡ true
  pub job_unlocked : locks.job_locked row.id ≡ false
  pub repository_unlocked : locks.repository_locked row.repository_id ≡ false

chosen :
    (now : ℕ) (locks : Locks) (db : Db) (row : Job)
    → Consistent db
    → Found (is_candidate now locks db) db.jobs.row row
    → Chosen now locks db row
unfolding is_candidate
chosen now locks db row v f = record {
  found = ground (arith, f.at_key, v.keyed f.key row f.at_key);
  free = ground (arith, f.passes);
  due = ground (arith, f.passes);
  job_unlocked = ground (arith, f.passes);
  repository_unlocked = ground (arith, f.passes);
}

pub candidate-Chosen :
    (now : ℕ) (locks : Locks) (db : Db) (row : Job)
    → Consistent db
    → candidate now locks db ≡ some row
    → Chosen now locks db row
unfolding candidate
candidate-Chosen now locks db row v h =
    chosen now locks db row v
      (best_of-Found (is_candidate now locks db) db.jobs.row db.jobs.keys row h)

pub close_expired-Consistent :
    (now : ℕ) (row : Job) (db : Db) → Consistent db → Consistent (close_expired now row db)
unfolding close_expired
close_expired-Consistent now row db v = elim (Bool-cases (is_running row.status)) [
  | inl active ↦ rw active (update_attempt-Inv v _ _ _)
  | inr still ↦ rw still v
]

-- The candidate stays what it was while its attempt is closed.
pub close_expired-Chosen :
    (now : ℕ) (locks : Locks) (row : Job) (db : Db)
    → Chosen now locks db row
    → Chosen now locks (close_expired now row db) row
unfolding close_expired
close_expired-Chosen now locks row db c = elim (Bool-cases (is_running row.status)) [
  | inl active ↦ rw active (record {
    found = c.found;
    free = c.free;
    due = c.due;
    job_unlocked = c.job_unlocked;
    repository_unlocked = c.repository_unlocked;
  })
  | inr still ↦ rw still c
]

module _ (s : Settings) (exhausted : Message) (now : ℕ) (row : Job) (db : Db) (v : Consistent db)
    (found : db.jobs.row row.id ≡ some row)
    (free : is_free_for (db.executions.row row.repository_id) row.id ≡ true) where
  end_spent-Version : Version row (end_spent exhausted now row)
  unfolding end_spent
  end_spent-Version = record {
    same_id = refl;
    same_home = refl;
    later = omega arith;
    fine = record { lease = ground arith; budget = (v.sound row.id row found).budget };
  }

  end_spent_stops : is_running (end_spent exhausted now row).status ≡ false
  unfolding end_spent
  end_spent_stops = ground arith

  active_only :
      (active : Option ℕ) (r : ℕ)
      → (update_at row.repository_id
            (λ (e : Execution). true)
            (set_active active)
            db.executions).row
          r
        ≡ (if r == row.repository_id
            then some (record { active_job_id = active })
            else db.executions.row r)
  unfolding update_at
  active_only active r = ground (arith, (v.housed row.id row found).found)

  pub close_spent-Consistent : Consistent (close_spent exhausted now row db)
  unfolding close_spent
  close_spent-Consistent = elim (Bool-cases (is_running row.status)) [
    | inl active ↦ rw active (update_attempt-Inv ended _ _ _)
    | inr still ↦ rw still ended
  ]
    where
      ended :
          Inv
            (put row.id (end_spent exhausted now row) db.jobs)
            (update_at row.repository_id (λ e. true) (set_active none) db.executions)
            db.attempts
      ended =
          release-Inv v row.id row _ found end_spent-Version _ no_execution (active_only none) refl
            free end_spent_stops

  module _ (worker session : ℕ) (more : is_spent row ≡ false) where
    claimed-Version : Version row (claimed s now worker row)
    unfolding claimed is_spent
    claimed-Version = record {
      same_id = refl;
      same_home = refl;
      later = omega arith;
      fine = record { lease = refl; budget = ground arith };
    }

    claimed_runs : is_running (claimed s now worker row).status ≡ true
    unfolding claimed
    claimed_runs = refl

    claimed-Reached :
        Reached (put row.id (claimed s now worker row) db.jobs) row.id (row.lease_generation + 1)
    unfolding claimed put
    claimed-Reached = record {
      job = claimed s now worker row;
      found = ground arith;
      reached = omega arith;
    }

    -- No other row of the repository runs, so the partial unique index has room.
    no_rival : find_where (is_rival row) db.jobs ≡ none
    unfolding is_rival
    no_rival = elim (Option-cases (find_where (is_rival row) db.jobs)) [
      | inl gone ↦ gone
      | inr (j, there) ↦
          let f : Found (is_rival row) db.jobs.row j =
            find_where-Found (is_rival row) db.jobs j there in
          absurd
            (ground (arith, f.passes, v.keyed f.key j f.at_key, v.reserved f.key j f.at_key, free))
    ]

    -- The generation is new, so the key of `job_attempts` has room.
    no_attempt : db.attempts.row (row.id, row.lease_generation + 1) ≡ none
    no_attempt = elim (Option-cases (db.attempts.row (row.id, row.lease_generation + 1))) [
      | inl gone ↦ gone
      | inr (a, there) ↦
          let r : Reached db.jobs row.id (row.lease_generation + 1) = v.fenced row.id _ a there in
          absurd (ground (arith, r.found, r.reached, found))
    ]

    taken :
        Inv
          (put row.id (claimed s now worker row) db.jobs)
          (update_at row.repository_id (λ e. true) (set_active (some row.id)) db.executions)
          db.attempts
    taken =
        acquire-Inv v row.id row _ found claimed-Version _ (reservation row.id)
          (active_only (some row.id)) refl free claimed_runs

    pub take_job-Consistent : Consistent (after db (take_job s now worker session row db))
    unfolding take_job taken_db
    take_job-Consistent =
        rw (no_rival, no_attempt)
          (elim (Bool-cases (has_session session (db.workers.row worker))) [
            | inl there ↦ rw there (insert_attempt-Inv taken _ _ _ claimed-Reached)
            | inr gone ↦ rw gone v
          ])

    pub take_job-ne-unique_violation : take_job s now worker session row db ≢ err unique_violation
    unfolding take_job
    take_job-ne-unique_violation = rw (no_rival, no_attempt) (λ h. ground (arith))
