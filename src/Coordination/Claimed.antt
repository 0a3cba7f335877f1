-- ===== src/Coordination/Claimed.antt =====
-- What claim_job returns, and what it leaves alone.
use repomesh.Prelude.{
  ℕ, ◌+◌, ◌≡◌, ◌⊎◌, refl, subst, true, false, some, arith, Bool-cases, Option-cases, inl, inr,
  is_some,
}
use repomesh.Table.{put, insert, update_at, find_where, id_eq, pair_eq}
use repomesh.Coordination.Schema.{
  Db, Job, Worker, Message, Settings, Failure, unique_violation, lease_lost, ok, err, after,
  is_running, is_terminal,
}
use repomesh.Coordination.Claims.{
  Locks, is_due, close_expired, is_spent, end_spent, close_spent, claimed, is_rival, new_attempt,
  take_job, taken_db, start_work, claim_job, has_session,
}
use repomesh.Coordination.Invariant.{Consistent, reservation}
use repomesh.Coordination.Invariant.Claiming.{Chosen, close_expired-Consistent}
use repomesh.Coordination.Invariant.Claiming.Loop.{claim_job_rule}

-- A due row `row` of the old tables, not spent, whose repository was free and unlocked, became the
-- running row `j`, with the repository, the attempt and the worker recorded along with it.
pub record Taken (s : Settings) (now : ℕ) (locks : Locks) (worker session : ℕ) (old new : Db)
    (j : Job) : Type 0 where
  pub row : Job
  pub was : old.jobs.row row.id ≡ some row
  pub due : is_due now row ≡ true
  pub unspent : is_spent row ≡ false
  pub unlocked :
      (locks.job_locked row.id ≡ false) × (locks.repository_locked row.repository_id ≡ false)
  pub is_claimed : j ≡ claimed s now worker row
  pub found : new.jobs.row row.id ≡ some j
  pub reserved : new.executions.row row.repository_id ≡ some (reservation row.id)
  pub attempted :
      new.attempts.row (row.id, j.lease_generation) ≡ some (new_attempt s now worker row)
  pub registered : Worker
  pub at_work : new.workers.row worker ≡ some registered
  pub on_job : (registered.session_id ≡ session) × (registered.current_job_id ≡ some row.id)

-- The tables during the loop: rows that are not finished are the old ones, and so is every row of
-- a repository or a job that another transaction has locked.
pub record Kept (locks : Locks) (old db : Db) : Type 0 where
  pub unfinished :
      (k : ℕ) (j : Job)
      → db.jobs.row k ≡ some j
      → is_terminal j.status ≡ false
      → old.jobs.row k ≡ some j
  pub locked_repository :
      (k : ℕ) (j : Job)
      → old.jobs.row k ≡ some j
      → locks.repository_locked j.repository_id ≡ true
      → db.jobs.row k ≡ some j
  pub locked_job : (k : ℕ) → locks.job_locked k ≡ true → db.jobs.row k ≡ old.jobs.row k

pub Kept-refl : (locks : Locks) (db : Db) → Kept locks db db
Kept-refl locks db = record {
  unfinished = λ k j h u. h;
  locked_repository = λ k j h l. h;
  locked_job = λ k l. refl;
}

close_expired-Kept :
    (now : ℕ) (locks : Locks) (row : Job) (old db : Db)
    → Kept locks old db
    → Kept locks old (close_expired now row db)
unfolding close_expired
close_expired-Kept now locks row old db h = elim (Bool-cases (is_running row.status)) [
  | inl active ↦ rw active (record {
    unfinished = h.unfinished;
    locked_repository = h.locked_repository;
    locked_job = h.locked_job;
  })
  | inr still ↦ rw still h
]

module _ (s : Settings) (exhausted : Message) (now : ℕ) (locks : Locks) (row : Job) (old db : Db)
    (h : Kept locks old db) (c : Chosen now locks db row) where
  close_spent-Kept : Kept locks old (close_spent exhausted now row db)
  unfolding close_spent end_spent put
  close_spent-Kept = record {
    unfinished = λ k j at u. ground (arith, h.unfinished k j);
    locked_repository =
        λ k j at l. ground (arith, h.locked_repository k j at l, c.found, c.repository_unlocked);
    locked_job = λ k l. ground (arith, h.locked_job k l, c.job_unlocked);
  }

  due_row : old.jobs.row row.id ≡ some row
  unfolding is_due
  due_row = h.unfinished row.id row c.found (ground (arith, c.due))

  module _ (worker session : ℕ) (w : Consistent db) (more : is_spent row ≡ false) where
    taken_db-Taken :
        has_session session (db.workers.row worker) ≡ true
        → Taken s now locks worker session old
            (taken_db s now worker session row db)
            (claimed s now worker row)
    unfolding taken_db put insert update_at claimed
    taken_db-Taken there = elim (Option-cases (db.workers.row worker)) [
      | inl gone ↦ absurd (ground arith)
      | inr (wk, at) ↦ record {
        row = row;
        was = due_row;
        due = c.due;
        unspent = more;
        unlocked = (c.job_unlocked, c.repository_unlocked);
        is_claimed = refl;
        found = ground arith;
        reserved = ground (arith, (w.housed row.id row c.found).found);
        attempted = ground arith;
        registered = start_work now row wk;
        at_work = ground (arith, at);
        on_job = (ground (arith, at), refl);
      }
    ]

    take_job_parts :
        (j : Job) (new : Db)
        → take_job s now worker session row db ≡ ok (some j, new)
        → (has_session session (db.workers.row worker) ≡ true)
          × (claimed s now worker row ≡ j)
          × (taken_db s now worker session row db ≡ new)
    unfolding take_job
    take_job_parts j new e = ground arith

    take_job-Taken :
        (j : Job) (new : Db)
        → take_job s now worker session row db ≡ ok (some j, new)
        → Taken s now locks worker session old new j
    take_job-Taken j new e =
        let (there, same_job, same_db) = take_job_parts j new e in
        subst (λ d. Taken s now locks worker session old d j) same_db
          (subst
            (λ x. Taken s now locks worker session old (taken_db s now worker session row db) x)
            same_job (taken_db-Taken there))

    -- A claim of the row takes it or fails as a whole.
    take_job_outcome :
        (take_job s now worker session row db
          ≡ ok (some (claimed s now worker row), taken_db s now worker session row db))
        ⊎ ((f : Failure) × (take_job s now worker session row db ≡ err f))
    unfolding take_job
    take_job_outcome = elim (Bool-cases (is_some (find_where (is_rival row) db.jobs))) [
      | inl rival ↦ inr (unique_violation, rw (rival, take_job))
      | inr alone ↦
          elim (Bool-cases (is_some (db.attempts.row (row.id, row.lease_generation + 1)))) [
            | inl taken ↦ inr (unique_violation, rw (alone, taken, take_job))
            | inr new ↦ elim (Bool-cases (has_session session (db.workers.row worker))) [
              | inl there ↦ inl (rw (alone, new, there, take_job))
              | inr gone ↦ inr (lease_lost, rw (alone, new, gone, take_job))
            ]
          ]
    ]

    taken_db_locked :
        (k : ℕ) (j : Job)
        → old.jobs.row k ≡ some j
        → locks.repository_locked j.repository_id ≡ true
        → (taken_db s now worker session row db).jobs.row k ≡ some j
    unfolding taken_db put
    taken_db_locked k j at l =
        ground (arith, h.locked_repository k j at l, c.found, c.repository_unlocked)

    take_job_locked :
        (k : ℕ) (j : Job)
        → old.jobs.row k ≡ some j
        → locks.repository_locked j.repository_id ≡ true
        → (after old (take_job s now worker session row db)).jobs.row k ≡ some j
    take_job_locked k j at l = elim take_job_outcome [
      | inl e ↦ rw e (taken_db_locked k j at l)
      | inr (f, e) ↦ rw e at
    ]

module _ (s : Settings) (exhausted : Message) (now : ℕ) (locks : Locks) (worker session : ℕ) where
  -- From consistent tables, a job that claim_job returns was due, unspent, free and unlocked, and is now running for the
  -- worker at the next generation, with its repository reserved and its attempt and the worker's
  -- current job recorded.
  pub claim_job-Taken :
      (db new : Db) (j : Job)
      → Consistent db
      → claim_job s exhausted now locks worker session db ≡ ok (some j, new)
      → Taken s now locks worker session db new j
  claim_job-Taken db new j v e =
      claim_job_rule s exhausted now locks worker session (Kept locks db)
        (λ r. (i : Job) (d : Db) → r ≡ ok (some i, d) → Taken s now locks worker session db d i)
        (λ x w h i d p. absurd (ground arith))
        (λ x row w h c out.
          close_spent-Kept s exhausted now locks row db (close_expired now row x)
            (close_expired-Kept now locks row db x h) c)
        (λ x row w h c more.
          take_job-Taken s exhausted now locks row db (close_expired now row x)
            (close_expired-Kept now locks row db x h) c worker session
            (close_expired-Consistent now row x w) more)
        (λ i d p. absurd (ground arith)) db v (Kept-refl locks db) j new e

  -- From consistent tables, a claim leaves every job of a repository alone whose row another transaction has locked, as
  -- mutation_guard does.
  pub claim_job_locked :
      (db : Db)
      → Consistent db
      → (k : ℕ) (j : Job) → db.jobs.row k ≡ some j
      → locks.repository_locked j.repository_id ≡ true
      → (after db (claim_job s exhausted now locks worker session db)).jobs.row k ≡ some j
  claim_job_locked db v k j at l =
      claim_job_rule s exhausted now locks worker session (Kept locks db)
        (λ r. (after db r).jobs.row k ≡ some j) (λ x w h. h.locked_repository k j at l)
        (λ x row w h c out.
          close_spent-Kept s exhausted now locks row db (close_expired now row x)
            (close_expired-Kept now locks row db x h) c)
        (λ x row w h c more.
          take_job_locked s exhausted now locks row db (close_expired now row x)
            (close_expired-Kept now locks row db x h) c worker session
            (close_expired-Consistent now row x w) more k j at l)
        at db v (Kept-refl locks db)
