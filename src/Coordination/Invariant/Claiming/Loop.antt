-- ===== src/Coordination/Invariant/Claiming/Loop.antt =====
-- The loop of claim_job: a rule for it, and what the rule gives for the invariant.
use repomesh.Prelude.{
  ℕ, zero, suc, ◌≡◌, ◌≢◌, true, false, Option, none, some, arith, Bool-cases, Option-cases, inl,
  inr,
}
use repomesh.Table.{id_eq, pair_eq}
use repomesh.Coordination.Schema.{
  Db, Job, Message, Settings, Result, ok, err, lease_lost, unique_violation, after,
}
use repomesh.Coordination.Claims.{
  Locks, candidate, close_expired, is_spent, close_spent, take_job, claim_loop, claim_job,
}
use repomesh.Coordination.Workers.{in_session}
use repomesh.Coordination.Invariant.{Consistent, after-Consistent}
use repomesh.Coordination.Invariant.Claiming.{
  Chosen, candidate-Chosen, close_expired-Consistent, close_expired-Chosen, close_spent-Consistent,
  take_job-Consistent, take_job-ne-unique_violation,
}

module _ (s : Settings) (exhausted : Message) (now : ℕ) (locks : Locks) (worker session : ℕ) where
  module _ (n : ℕ) (db : Db) where
    claim_round_none :
        candidate now locks db ≡ none
        → claim_loop (suc n) s exhausted now locks worker session db ≡ ok (none, db)
    unfolding claim_loop
    claim_round_none e = rw (e, claim_loop)

    claim_round_spent :
        (row : Job)
        → candidate now locks db ≡ some row
        → is_spent row ≡ true
        → claim_loop (suc n) s exhausted now locks worker session db
          ≡ claim_loop n s exhausted now locks worker session
              (close_spent exhausted now row (close_expired now row db))
    unfolding claim_loop
    claim_round_spent row e out = rw (e, claim_loop) (rw out)

    claim_round_takes :
        (row : Job)
        → candidate now locks db ≡ some row
        → is_spent row ≡ false
        → claim_loop (suc n) s exhausted now locks worker session db
          ≡ take_job s now worker session row (close_expired now row db)
    unfolding claim_loop
    claim_round_takes row e more = rw (e, claim_loop) (rw more)

  -- The rule of the loop: `I` holds of the tables before each round, `Q` of the outcome.
  module _ {ℓ κ} (I : Db → Type ℓ) (Q : Result (Option Job × Db) → Type κ)
      (idle : (db : Db) → Consistent db → I db → Q (ok (none, db)))
      (closes : (db : Db) (row : Job)
        → Consistent db
        → I db
        → Chosen now locks (close_expired now row db) row
        → is_spent row ≡ true
        → I (close_spent exhausted now row (close_expired now row db)))
      (takes : (db : Db) (row : Job)
        → Consistent db
        → I db
        → Chosen now locks (close_expired now row db) row
        → is_spent row ≡ false
        → Q (take_job s now worker session row (close_expired now row db))) where
    claim_loop_rule :
        (n : ℕ) (db : Db)
        → Consistent db
        → I db
        → Q (claim_loop n s exhausted now locks worker session db)
    claim_loop_rule zero db v h = unfold claim_loop in idle db v h
    claim_loop_rule (suc n) db v h = elim (Option-cases (candidate now locks db)) [
      | inl gone ↦ rw (claim_round_none n db gone) (idle db v h)
      | inr (row, got) ↦
          let c : Chosen now locks (close_expired now row db) row =
            close_expired-Chosen now locks row db (candidate-Chosen now locks db row v got) in
          let w : Consistent (close_expired now row db) = close_expired-Consistent now row db v in
          elim (Bool-cases (is_spent row)) [
            | inl out ↦ rw (claim_round_spent n db row got out) (
                claim_loop_rule n (close_spent exhausted now row (close_expired now row db))
                  (close_spent-Consistent s exhausted now row (close_expired now row db) w c.found
                    c.free)
                  (closes db row v h c out))
            | inr more ↦ rw (claim_round_takes n db row got more) (takes db row v h c more)
          ]
    ]

    -- The same of the whole method, which first looks for the worker's session.
    pub claim_job_rule :
        (refused : Q (err lease_lost)) (db : Db)
        → Consistent db
        → I db
        → Q (claim_job s exhausted now locks worker session db)
    unfolding claim_job
    claim_job_rule refused db v h = elim (Option-cases (db.workers.row worker)) [
      | inl gone ↦ rw (gone, claim_job) refused
      | inr (w, there) ↦ elim (Bool-cases (in_session session w)) [
        | inl live ↦ rw (there, claim_job) (rw live (claim_loop_rule 32 db v h))
        | inr off ↦ rw (there, claim_job) (rw off refused)
      ]
    ]

  -- A claim keeps the tables consistent, whatever it returns.
  pub claim_job-Consistent :
      (db : Db)
      → Consistent db
      → Consistent (after db (claim_job s exhausted now locks worker session db))
  claim_job-Consistent db v =
      claim_job_rule (λ x. Unit {0}) (λ r. Consistent (after db r)) (λ x w _. w)
        (λ x row w _ c out. tt)
        (λ x row w _ c more.
          after-Consistent (close_expired now row x) db
            (take_job s now worker session row (close_expired now row x)) v
            (take_job-Consistent s exhausted now row (close_expired now row x)
              (close_expired-Consistent now row x w) c.found c.free worker session more))
        v db v tt

  -- From consistent tables a claim never fails on a key or on the index of running jobs.
  pub claim_job-ne-unique_violation :
      (db : Db)
      → Consistent db
      → claim_job s exhausted now locks worker session db ≢ err unique_violation
  claim_job-ne-unique_violation db v =
      claim_job_rule (λ x. Unit {0}) (λ r. r ≢ err unique_violation) (λ x w _ h. ground arith)
        (λ x row w _ c out. tt)
        (λ x row w _ c more.
          take_job-ne-unique_violation s exhausted now row (close_expired now row x)
            (close_expired-Consistent now row x w) c.found c.free worker session more)
        (λ h. ground arith) db v tt
