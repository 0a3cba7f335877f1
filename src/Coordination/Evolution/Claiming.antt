-- ===== src/Coordination/Evolution/Claiming.antt =====
-- claim_job lets the rows evolve.
use repomesh.Prelude.{subst, ℕ, ◌+◌, ◌≡◌, refl, true, false, arith, Bool-cases, inl, inr, is_some}
use repomesh.Table.{find_where, id_eq, pair_eq}
use repomesh.Coordination.Schema.{Db, Job, Message, Settings, after, is_running, is_terminal}
use repomesh.Coordination.Claims.{
  Locks, is_due, close_expired, end_spent, close_spent, claimed, is_rival, take_job, taken_db,
  claim_job, has_session,
}
use repomesh.Coordination.Invariant.{Consistent}
use repomesh.Coordination.Invariant.Claiming.{Chosen}
use repomesh.Coordination.Invariant.Claiming.Loop.{claim_job_rule}
use repomesh.Coordination.Evolution.{
  Evolution, Evolves, Evolves-refl, Evolves-trans, put-Evolves, after-Evolves,
}

-- A due row is not a finished one.
due_unfinished : (now : ℕ) (row : Job) → is_due now row ≡ true → is_terminal row.status ≡ false
unfolding is_due
due_unfinished now row due = ground arith

close_expired_jobs : (now : ℕ) (row : Job) (db : Db) → (close_expired now row db).jobs ≡ db.jobs
unfolding close_expired
close_expired_jobs now row db = elim (Bool-cases (is_running row.status)) [
  | inl active ↦ rw active refl
  | inr still ↦ rw still refl
]

module _ (s : Settings) (exhausted : Message) (now : ℕ) (locks : Locks) (row : Job) (db : Db)
    (c : Chosen now locks db row) where
  end_spent-Evolution : Evolution row (end_spent exhausted now row)
  unfolding end_spent
  end_spent-Evolution = record {
    same_id = refl;
    same_home = refl;
    same_key = refl;
    same_parent = refl;
    same_budget = refl;
    later = omega arith;
    tried = omega arith;
    frozen = λ h. absurd (ground (arith, due_unfinished now row c.due));
  }

  claimed-Evolution : (worker : ℕ) → Evolution row (claimed s now worker row)
  unfolding claimed
  claimed-Evolution worker = record {
    same_id = refl;
    same_home = refl;
    same_key = refl;
    same_parent = refl;
    same_budget = refl;
    later = omega arith;
    tried = omega arith;
    frozen = λ h. absurd (ground (arith, due_unfinished now row c.due));
  }

  close_spent-Evolves : Evolves db.jobs (close_spent exhausted now row db).jobs
  unfolding close_spent
  close_spent-Evolves = put-Evolves db.jobs row.id row _ c.found end_spent-Evolution

  take_job-Evolves :
      (worker session : ℕ) → Evolves db.jobs (after db (take_job s now worker session row db)).jobs
  unfolding take_job taken_db
  take_job-Evolves worker session =
      elim (Bool-cases (is_some (find_where (is_rival row) db.jobs))) [
        | inl rival ↦ rw (rival, take_job) (Evolves-refl db.jobs)
        | inr alone ↦
            elim (Bool-cases (is_some (db.attempts.row (row.id, row.lease_generation + 1)))) [
              | inl taken ↦ rw (alone, taken, take_job) (Evolves-refl db.jobs)
              | inr new ↦ elim (Bool-cases (has_session session (db.workers.row worker))) [
                | inl there ↦
                    rw (alone, new, there, take_job)
                      (put-Evolves db.jobs row.id row _ c.found (claimed-Evolution worker))
                | inr gone ↦ rw (alone, new, gone, take_job) (Evolves-refl db.jobs)
              ]
            ]
      ]

module _ (s : Settings) (exhausted : Message) (now : ℕ) (locks : Locks) (worker session : ℕ) where
  pub claim_job-Evolves :
      (db : Db)
      → Consistent db
      → Evolves db.jobs (after db (claim_job s exhausted now locks worker session db)).jobs
  claim_job-Evolves db v =
      claim_job_rule s exhausted now locks worker session (λ x. Evolves db.jobs x.jobs)
        (λ r. Evolves db.jobs (after db r).jobs) (λ x w h. h)
        (λ x row w h c out. Evolves-trans db.jobs x.jobs _ h (
          subst (λ t. Evolves t (close_spent exhausted now row (close_expired now row x)).jobs)
            (close_expired_jobs now row x)
            (close_spent-Evolves s exhausted now locks row (close_expired now row x) c)))
        (λ x row w h c more.
          after-Evolves (close_expired now row x) db
            (take_job s now worker session row (close_expired now row x))
            (rw (close_expired_jobs now row x) h)
            (take_job-Evolves s exhausted now locks row (close_expired now row x) c worker session))
        (Evolves-refl db.jobs) db v (Evolves-refl db.jobs)
