-- ===== src/Coordination/World/Exclusion.antt =====
-- One running job for a repository, budgets and fencing along every history.
use repomesh.Prelude.{
  ℕ, ◌<◌, ◌≡◌, ◌≢◌, ◌∙◌, ap, Bool, true, false, Option, none, some, List, arith, Option-cases, inl,
  inr, subst,
}
use repomesh.Table.{id_eq}
use repomesh.Coordination.Schema.{
  Db, Job, Stats, Message, Settings, ok, err, lease_lost, after, is_running, is_terminal,
}
use repomesh.Coordination.Claims.{Locks, claim_job}
use repomesh.Coordination.Claimed.{claim_job_locked}
use repomesh.Coordination.Leases.{
  is_future, owned_row, assert_ownership, renew_lease, update_progress, finish, complete_job,
  cancel_job, fail_job, schedule_retry, mutation_guard,
}
use repomesh.Coordination.Invariant.{Consistent, JobOk}
use repomesh.Coordination.Evolution.{Remains, Evolves}
use repomesh.Coordination.World.{World, Action, start, run}
use repomesh.Coordination.World.Safety.{Sane, IsKnown, run-Sane, run-Evolves, start-Sane}

module _ (s : Settings) (exhausted : Message) (history : List (ℕ × Action)) where
  abbrev reached : Db
  reached = (run s exhausted start history).db

  reached-Consistent : Consistent reached
  reached-Consistent = (run-Sane s exhausted start history start-Sane).consistent

  -- After any history from empty tables, two running jobs of one repository are the same job.
  pub one_running :
      (a b : ℕ) (ja jb : Job)
      → reached.jobs.row a ≡ some ja
      → reached.jobs.row b ≡ some jb
      → is_running ja.status ≡ true
      → is_running jb.status ≡ true
      → ja.repository_id ≡ jb.repository_id
      → a ≡ b
  one_running a b ja jb ha hb ra rb same =
      ground (arith, reached-Consistent.reserved a ja ha ra, reached-Consistent.reserved b jb hb rb)

  -- After any history from empty tables, each job has used at most its attempts, and its lease
  -- columns are set exactly while it runs.
  pub reached-JobOk : (k : ℕ) (j : Job) → reached.jobs.row k ≡ some j → JobOk j
  reached-JobOk = reached-Consistent.sound

-- In a sane world, a finished job's row is the same after any further history.
pub finished_forever :
    (s : Settings) (exhausted : Message) (w : World) (history : List (ℕ × Action))
    → Sane w
    → (k : ℕ) (j : Job) → w.db.jobs.row k ≡ some j
    → is_terminal j.status ≡ true
    → (run s exhausted w history).db.jobs.row k ≡ some j
finished_forever s exhausted w history v k j h ended =
    let r : Remains (run s exhausted w history).db.jobs k j =
      unfold Evolves in run-Evolves s exhausted w history v k j h in
    r.found ∙ ap some (r.evolution.frozen ended)

-- The lease is not the holder's: the row is at another generation, its lease has passed or is
-- absent, it does not run, or there is no row.
pub data Lost (now : ℕ) (held : Job) (db : Db) : Type 0 where
  gone : db.jobs.row held.id ≡ none → Lost now held db
  outrun :
      (row : Job)
      → db.jobs.row held.id ≡ some row
      → row.lease_generation ≢ held.lease_generation
      → Lost now held db
  late :
      (row : Job)
      → db.jobs.row held.id ≡ some row
      → is_future row.lease_expires_at now ≡ false
      → Lost now held db
  idle :
      (row : Job)
      → db.jobs.row held.id ≡ some row
      → is_running row.status ≡ false
      → Lost now held db

owned_row-Lost : (now : ℕ) (held : Job) (db : Db) → Lost now held db → owned_row now held db ≡ none
unfolding owned_row
owned_row-Lost now held db (gone e) = ground arith
owned_row-Lost now held db (outrun row e h) = ground arith
owned_row-Lost now held db (late row e h) = ground arith
owned_row-Lost now held db (idle row e h) = ground arith

-- Every method of a holder is refused, and the tables stay as they are.
pub record Refused (s : Settings) (now : ℕ) (held : Job) (db : Db) : Type 0 where
  pub asserts : assert_ownership now held db ≡ err lease_lost
  pub renews_not : renew_lease s now held db ≡ err lease_lost
  pub reports_not :
      (stats : Stats) (path : Option ℕ) (error : Option Message)
      → update_progress now held stats path error db ≡ err lease_lost
  pub completes_not : (with_errors : Bool) → complete_job now held with_errors db ≡ err lease_lost
  pub cancels_not : cancel_job now held db ≡ err lease_lost
  pub retries_not :
      (jitter : ℕ) (error : Message) → schedule_retry s now jitter held error db ≡ err lease_lost
  pub guards_not : mutation_guard now held db ≡ err lease_lost

Refused-of_none :
    (s : Settings) (now : ℕ) (held : Job) (db : Db)
    → owned_row now held db ≡ none
    → Refused s now held db
unfolding assert_ownership renew_lease update_progress finish complete_job cancel_job fail_job
    schedule_retry mutation_guard
Refused-of_none s now held db h = record {
  asserts = rw (h, assert_ownership);
  renews_not = rw (h, renew_lease);
  reports_not = λ stats path error. rw (h, update_progress);
  completes_not = λ with_errors. ground arith;
  cancels_not = rw (h, finish);
  retries_not = λ jitter error. ground arith;
  guards_not = ground arith;
}

-- A holder that has lost its lease is refused by assert_ownership, renew_lease, update_progress,
-- complete_job, cancel_job, schedule_retry and mutation_guard.
pub Lost-Refused :
    (s : Settings) (now : ℕ) (held : Job) (db : Db) → Lost now held db → Refused s now held db
Lost-Refused s now held db h = Refused-of_none s now held db (owned_row-Lost now held db h)

-- In a sane world, a holder whose job is at a later generation is refused by assert_ownership,
-- renew_lease, update_progress, complete_job, cancel_job, schedule_retry and mutation_guard after
-- any further history, at any reading of the clock.
pub stale_forever :
    (s : Settings) (exhausted : Message) (w : World) (history : List (ℕ × Action)) (now : ℕ)
    (held row : Job)
    → Sane w
    → w.db.jobs.row held.id ≡ some row
    → held.lease_generation < row.lease_generation
    → Refused s now held (run s exhausted w history).db
stale_forever s exhausted w history now held row v h newer =
    let r : Remains (run s exhausted w history).db.jobs held.id row =
      unfold Evolves in run-Evolves s exhausted w history v held.id row h in
    Lost-Refused s now held (run s exhausted w history).db
      (outrun r.now r.found (λ e. omega (arith, r.evolution.later)))

owned_row_locked :
    (s : Settings) (exhausted : Message) (locks : Locks) (worker session t now : ℕ) (held : Job)
    (db : Db)
    → Consistent db
    → IsKnown db held
    → locks.repository_locked held.repository_id ≡ true
    → owned_row now held (after db (claim_job s exhausted t locks worker session db))
      ≡ owned_row now held db
unfolding owned_row
owned_row_locked s exhausted locks worker session t now held db v k l =
    let same : held.repository_id ≡ k.now.repository_id = ground (arith, k.evolution.same_home) in
    rw (
      claim_job_locked s exhausted t locks worker session db v held.id k.now k.found
          (subst (λ r. locks.repository_locked r ≡ true) same l),
      k.found,
    )

-- In consistent tables, while a mutation guard of a known job holds the row of the job's
-- repository, a claim by any worker at any time leaves the outcome of the guarded job's ownership
-- test as it was.
pub guard_excludes_takeover :
    (s : Settings) (exhausted : Message) (locks : Locks) (worker session t now : ℕ) (held : Job)
    (db : Db) (cancel : Bool)
    → Consistent db
    → IsKnown db held
    → locks.repository_locked held.repository_id ≡ true
    → mutation_guard now held db ≡ ok (cancel, db)
    → assert_ownership now held (after db (claim_job s exhausted t locks worker session db))
      ≡ ok (cancel, after db (claim_job s exhausted t locks worker session db))
unfolding mutation_guard assert_ownership
guard_excludes_takeover s exhausted locks worker session t now held db cancel v k l g =
    elim (Option-cases (owned_row now held db)) [
      | inl lost ↦ absurd (ground arith)
      | inr (row, got) ↦
          rw
            (
              owned_row_locked s exhausted locks worker session t now held db v k l,
              got,
              assert_ownership,
            )
            (ground arith)
    ]
