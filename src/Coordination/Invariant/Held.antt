-- ===== src/Coordination/Invariant/Held.antt =====
-- The methods that a job's holder calls keep the invariant.
use repomesh.Prelude.{
  leb, ℕ, ◌≡◌, ◌==◌, refl, Bool, true, false, Option, none, some, arith, Bool-cases, Option-cases,
  inl, inr, if◌then◌else◌, is_id,
}
use repomesh.Table.{update_at, id_eq}
use repomesh.Coordination.Schema.{
  Db, Execution, Job, Stats, Message, Status, Settings, after, is_running, completed,
  completed_with_errors, failed, cancelled, retrying,
}
use repomesh.Coordination.Leases.{
  is_owned, owned_row, renewed, renew_lease, progressed, update_progress, finished, finish,
  complete_job, cancel_job, fail_job, schedule_retry,
}
use repomesh.Coordination.Invariant.{Consistent}
use repomesh.Coordination.Invariant.Moves.{Version, touch-Inv, release-Inv}
use repomesh.Coordination.Invariant.Inserts.{update_attempt-Inv}
use repomesh.Coordination.Jobs.{no_execution}
use repomesh.Coordination.Claims.{set_active, is_free_for}

-- The row that OWNED selects is the held job's, running, with that generation and a live lease.
pub record Owned (now : ℕ) (held : Job) (db : Db) (row : Job) : Type 0 where
  pub found : db.jobs.row held.id ≡ some row
  pub is_live : is_owned now held row ≡ true
  pub active : is_running row.status ≡ true
  pub same_generation : row.lease_generation ≡ held.lease_generation

pub owned_row-Owned :
    (now : ℕ) (held : Job) (db : Db) (row : Job)
    → owned_row now held db ≡ some row
    → Owned now held db row
unfolding owned_row
owned_row-Owned now held db row h = record {
  found = ground arith;
  is_live = ground arith;
  active = ground arith;
  same_generation = ground arith;
}

module _ (now : ℕ) (held : Job) (db : Db) (v : Consistent db) where
  renewed-Version :
      (s : Settings) (row : Job) → Owned now held db row → Version row (renewed s now row)
  unfolding renewed
  renewed-Version s row o = record {
    same_id = refl;
    same_home = refl;
    later = omega arith;
    fine = record {
      lease = ground (arith, (v.sound held.id row o.found).lease, o.active);
      budget = (v.sound held.id row o.found).budget;
    };
  }

  pub renew_lease-Consistent : (s : Settings) → Consistent (after db (renew_lease s now held db))
  unfolding renew_lease
  renew_lease-Consistent s = elim (Option-cases (owned_row now held db)) [
    | inl gone ↦ rw (gone, renew_lease) v
    | inr (row, got) ↦
        let o : Owned now held db row = owned_row-Owned now held db row got in
        rw (got, renew_lease)
          (update_attempt-Inv (touch-Inv v held.id row _ o.found (renewed-Version s row o) refl) _ _
            _)
  ]

  progressed-Version :
      (stats : Stats) (row : Job) → Owned now held db row → Version row (progressed now stats row)
  unfolding progressed
  progressed-Version stats row o = record {
    same_id = refl;
    same_home = refl;
    later = omega arith;
    fine = record {
      lease = (v.sound held.id row o.found).lease;
      budget = (v.sound held.id row o.found).budget;
    };
  }

  pub update_progress-Consistent :
      (stats : Stats) (path : Option ℕ) (error : Option Message)
      → Consistent (after db (update_progress now held stats path error db))
  unfolding update_progress
  update_progress-Consistent stats path error = elim (Option-cases (owned_row now held db)) [
    | inl gone ↦ rw (gone, update_progress) v
    | inr (row, got) ↦
        let o : Owned now held db row = owned_row-Owned now held db row got in
        rw (got, update_progress)
          (touch-Inv v held.id row _ o.found (progressed-Version stats row o) refl)
  ]

  module _ (status : Status) (ends : is_running status ≡ false) (error : Option Message)
      (delay : ℕ) where
    finished-Version :
        (row : Job) → Owned now held db row → Version row (finished now status error delay row)
    unfolding finished
    finished-Version row o = record {
      same_id = refl;
      same_home = refl;
      later = omega arith;
      fine = record { lease = ground arith; budget = (v.sound held.id row o.found).budget };
    }

    finished_stops : (row : Job) → is_running (finished now status error delay row).status ≡ false
    unfolding finished
    finished_stops row = ground arith

    finish_only :
        (row : Job)
        → Owned now held db row
        → held.repository_id ≡ row.repository_id
        → (r : ℕ)
        → (update_at held.repository_id
              (λ (e : Execution). is_id e.active_job_id held.id)
              (set_active none)
              db.executions).row
            r
          ≡ (if r == row.repository_id then some no_execution else db.executions.row r)
    unfolding update_at
    finish_only row o home r = ground (arith, v.reserved held.id row o.found o.active)

    held_is_free :
        (row : Job)
        → Owned now held db row
        → is_free_for (db.executions.row row.repository_id) held.id ≡ true
    held_is_free row o = ground (arith, v.reserved held.id row o.found o.active)

    -- `held` is a row of its job as it once was, so it names the job's repository.
    pub finish-Consistent :
        ((row : Job) → db.jobs.row held.id ≡ some row → held.repository_id ≡ row.repository_id)
        → Consistent (after db (finish now held status error delay db))
    unfolding finish
    finish-Consistent home = elim (Option-cases (owned_row now held db)) [
      | inl gone ↦ rw (gone, finish) v
      | inr (row, got) ↦
          let o : Owned now held db row = owned_row-Owned now held db row got in
          rw (got, finish)
            (update_attempt-Inv
              (release-Inv v held.id row _ o.found (finished-Version row o) _ no_execution
                (finish_only row o (home row o.found)) refl (held_is_free row o)
                (finished_stops row))
              _ _ _)
    ]

module _ (now : ℕ) (held : Job) (db : Db) (v : Consistent db)
    (home : (row : Job)
      → db.jobs.row held.id ≡ some row
      → held.repository_id ≡ row.repository_id) where
  pub complete_job-Consistent :
      (with_errors : Bool) → Consistent (after db (complete_job now held with_errors db))
  unfolding complete_job
  complete_job-Consistent true =
      finish-Consistent now held db v completed_with_errors refl none 0 home
  complete_job-Consistent false = finish-Consistent now held db v completed refl none 0 home

  pub cancel_job-Consistent : Consistent (after db (cancel_job now held db))
  unfolding cancel_job
  cancel_job-Consistent = finish-Consistent now held db v cancelled refl none 0 home

  pub fail_job-Consistent : (error : Message) → Consistent (after db (fail_job now held error db))
  unfolding fail_job
  fail_job-Consistent error = finish-Consistent now held db v failed refl _ 0 home

  pub schedule_retry-Consistent :
      (s : Settings) (jitter : ℕ) (error : Message)
      → Consistent (after db (schedule_retry s now jitter held error db))
  unfolding schedule_retry
  schedule_retry-Consistent s jitter error =
      elim (Bool-cases (leb held.max_attempts held.attempt)) [
        | inl out ↦ rw (out, schedule_retry) (fail_job-Consistent error)
        | inr more ↦
            rw (more, schedule_retry) (finish-Consistent now held db v retrying refl _ _ home)
      ]
