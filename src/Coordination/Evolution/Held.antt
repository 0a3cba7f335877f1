-- ===== src/Coordination/Evolution/Held.antt =====
-- The methods that a job's holder calls let the rows evolve.
use repomesh.Prelude.{
  ℕ, ◌≡◌, refl, Bool, true, false, Option, none, arith, leb, Bool-cases, Option-cases, inl, inr,
}
use repomesh.Coordination.Schema.{
  Db, Job, Stats, Message, Status, Settings, after, is_running, completed, completed_with_errors,
  failed, cancelled, retrying,
}
use repomesh.Coordination.Leases.{
  owned_row, renewed, renew_lease, progressed, update_progress, finished, finish, complete_job,
  cancel_job, fail_job, schedule_retry,
}
use repomesh.Coordination.Invariant.Held.{Owned, owned_row-Owned}
use repomesh.Coordination.Evolution.{Evolution, Evolves, Evolves-refl, put-Evolves}

-- A change of a running row that keeps its identity, generation and attempts.
running-Evolution :
    (j j' : Job)
    → is_running j.status ≡ true
    → j'.id ≡ j.id
    → j'.repository_id ≡ j.repository_id
    → j'.idempotency_key ≡ j.idempotency_key
    → j'.parent_job_id ≡ j.parent_job_id
    → j'.max_attempts ≡ j.max_attempts
    → j'.lease_generation ≡ j.lease_generation
    → j'.attempt ≡ j.attempt
    → Evolution j j'
running-Evolution j j' active a b c d m g t = record {
  same_id = a;
  same_home = b;
  same_key = c;
  same_parent = d;
  same_budget = m;
  later = omega (arith, g);
  tried = omega (arith, t);
  frozen = λ h. absurd (ground arith);
}

module _ (now : ℕ) (held : Job) (db : Db) where
  pub renew_lease-Evolves :
      (s : Settings) → Evolves db.jobs (after db (renew_lease s now held db)).jobs
  unfolding renew_lease
  renew_lease-Evolves s = elim (Option-cases (owned_row now held db)) [
    | inl gone ↦ rw (gone, renew_lease) (Evolves-refl db.jobs)
    | inr (row, got) ↦
        let o : Owned now held db row = owned_row-Owned now held db row got in
        rw (got, renew_lease) (put-Evolves db.jobs held.id row _ o.found (new row o))
  ]
    where
      new : (row : Job) → Owned now held db row → Evolution row (renewed s now row)
      new row o = running-Evolution row _ o.active refl refl refl refl refl refl refl

  pub update_progress-Evolves :
      (stats : Stats) (path : Option ℕ) (error : Option Message)
      → Evolves db.jobs (after db (update_progress now held stats path error db)).jobs
  unfolding update_progress
  update_progress-Evolves stats path error = elim (Option-cases (owned_row now held db)) [
    | inl gone ↦ rw (gone, update_progress) (Evolves-refl db.jobs)
    | inr (row, got) ↦
        let o : Owned now held db row = owned_row-Owned now held db row got in
        rw (got, update_progress) (put-Evolves db.jobs held.id row _ o.found (new row o))
  ]
    where
      new : (row : Job) → Owned now held db row → Evolution row (progressed now stats row)
      new row o = running-Evolution row _ o.active refl refl refl refl refl refl refl

  pub finish-Evolves :
      (status : Status) (error : Option Message) (delay : ℕ)
      → Evolves db.jobs (after db (finish now held status error delay db)).jobs
  unfolding finish
  finish-Evolves status error delay = elim (Option-cases (owned_row now held db)) [
    | inl gone ↦ rw (gone, finish) (Evolves-refl db.jobs)
    | inr (row, got) ↦
        let o : Owned now held db row = owned_row-Owned now held db row got in
        rw (got, finish) (put-Evolves db.jobs held.id row _ o.found (new row o))
  ]
    where
      new :
          (row : Job) → Owned now held db row → Evolution row (finished now status error delay row)
      new row o = running-Evolution row _ o.active refl refl refl refl refl refl refl

  pub complete_job-Evolves :
      (with_errors : Bool) → Evolves db.jobs (after db (complete_job now held with_errors db)).jobs
  unfolding complete_job
  complete_job-Evolves true = finish-Evolves completed_with_errors none 0
  complete_job-Evolves false = finish-Evolves completed none 0

  pub cancel_job-Evolves : Evolves db.jobs (after db (cancel_job now held db)).jobs
  unfolding cancel_job
  cancel_job-Evolves = finish-Evolves cancelled none 0

  pub schedule_retry-Evolves :
      (s : Settings) (jitter : ℕ) (error : Message)
      → Evolves db.jobs (after db (schedule_retry s now jitter held error db)).jobs
  unfolding schedule_retry fail_job
  schedule_retry-Evolves s jitter error = elim (Bool-cases (leb held.max_attempts held.attempt)) [
    | inl out ↦ rw (out, schedule_retry) (finish-Evolves failed _ 0)
    | inr more ↦ rw (more, schedule_retry) (finish-Evolves retrying _ _)
  ]
