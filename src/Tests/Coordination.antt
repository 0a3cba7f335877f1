-- ===== src/Tests/Coordination.antt =====
-- A worker 7 with session 70, repositories 1 and 2, and jobs 10 and 11.
use repomesh.Prelude.{ℕ, ◌≡◌, ◌≢◌, ◌<◌, refl, true, false, none, some, List, [], ◌∷◌, arith}
use repomesh.Prelude.Int.{pos}
use repomesh.Table.{put, insert, ensure, update_at, find_in, find_where, id_eq, pair_eq}
use repomesh.Coordination.Schema.{
  Db, Job, Settings, Message, ok, err, value_error, unique_violation, is_running, is_terminal, full,
  incremental, completed, after,
}
use repomesh.Coordination.Jobs.{requested_job, same_request, submit_job, request_cancel}
use repomesh.Coordination.Workers.{register_worker}
use repomesh.Coordination.Claims.{
  Locks, no_locks, claimed, claim_job, claim_loop, candidate, best_of, earlier, is_before,
  is_candidate, close_expired, is_spent, close_spent, take_job, taken_db,
}
use repomesh.Coordination.Leases.{
  is_future, finished, owned_row, complete_job, finish, mutation_guard, assert_ownership,
}
use repomesh.Coordination.Claimed.{Taken, claim_job-Taken, claim_job_locked}
use repomesh.Coordination.Idempotency.{submit_job_reused, submit_job_again}
use repomesh.Coordination.Invariant.Claiming.Loop.{claim_job-ne-unique_violation}
use repomesh.Coordination.Invariant.{JobOk}
use repomesh.Coordination.Evolution.{Evolution-refl}
use repomesh.Coordination.World.{
  World, Action, submits, registers, claims, cancels, does, completes, run, start,
}
use repomesh.Coordination.World.Safety.{Sane, run-Sane, start-Sane}
use repomesh.Coordination.World.Exclusion.{
  one_running, reached-JobOk, finished_forever, Lost-Refused, stale_forever,
  guard_excludes_takeover, Refused, late,
}

abbrev pub settings : Settings
settings = record {
  job_lease = 30;
  job_heartbeat = 10;
  job_max_retries = 3;
  job_retry_base = 4;
  job_retry_max = 60;
  worker_offline = 60;
  watch_poll = 5;
  watch_debounce = 2;
  watch_max_wait = 30;
  watch_default_enabled = true;
}

abbrev pub exhausted : Message
exhausted = b'x' ∷ []

abbrev opening : List (ℕ × Action)
opening =
    (1, registers 70 7 0 0 0) ∷ (2, submits 10 1 full none (pos 0)) ∷ (5, claims no_locks 7 70) ∷ []

abbrev pub job_10 : Job
job_10 = claimed settings 5 7 (requested_job settings 2 10 1 full none (pos 0))

-- The code that a history runs, for the `unfolding` lines below.
unfoldable pub program : List ℕ
unfolding run start register_worker submit_job claim_job claim_loop candidate best_of earlier
    is_before is_candidate close_expired is_spent close_spent take_job taken_db put insert ensure
    update_at find_in find_where claimed request_cancel owned_row complete_job finish finished
    mutation_guard assert_ownership
program = []

abbrev pub opened : World
opened = run settings exhausted start opening

pub opened-Sane : Sane opened
opened-Sane = run-Sane settings exhausted start opening start-Sane

pub job_10_there : opened.db.jobs.row 10 ≡ some job_10
unfolding program
job_10_there = refl

job_10_runs : is_running job_10.status ≡ true
unfolding claimed
job_10_runs = refl

one_running_example : ◌≡◌ {A = ℕ} 10 10
one_running_example =
    one_running settings exhausted opening 10 10 job_10 job_10 job_10_there job_10_there job_10_runs
      job_10_runs refl

reached-JobOk_example : JobOk job_10
reached-JobOk_example = reached-JobOk settings exhausted opening 10 job_10 job_10_there

abbrev pub ended : World
ended = run settings exhausted opened ((6, does 0 (completes false)) ∷ [])

abbrev pub finished_10 : Job
finished_10 = finished 6 completed none 0 job_10

pub finished_10_there : ended.db.jobs.row 10 ≡ some finished_10
unfolding program
finished_10_there = refl

finished_10_ended : is_terminal finished_10.status ≡ true
unfolding program
finished_10_ended = refl

abbrev afterwards : List (ℕ × Action)
afterwards = (7, cancels 10) ∷ (8, submits 11 1 full none (pos 0)) ∷ (9, claims no_locks 7 70) ∷ []

finished_forever_example :
    (run settings exhausted ended afterwards).db.jobs.row 10 ≡ some finished_10
finished_forever_example =
    finished_forever settings exhausted ended afterwards
      (run-Sane settings exhausted opened ((6, does 0 (completes false)) ∷ []) opened-Sane) 10
      finished_10 finished_10_there finished_10_ended

-- The lease of job 10 ends at 35.
job_10_late : is_future job_10.lease_expires_at 40 ≡ false
unfolding claimed
job_10_late = refl

Lost-Refused_example : Refused settings 40 job_10 opened.db
unfolding claimed
Lost-Refused_example =
    Lost-Refused settings 40 job_10 opened.db (late job_10 job_10_there job_10_late)

-- Worker 8 takes the job over at 40.
abbrev taken_over : World
taken_over =
    run settings exhausted opened ((38, registers 80 8 0 0 0) ∷ (40, claims no_locks 8 80) ∷ [])

abbrev pub second_10 : Job
second_10 = claimed settings 40 8 job_10

second_10_there : taken_over.db.jobs.row job_10.id ≡ some second_10
unfolding program
second_10_there = refl

second_10_newer : job_10.lease_generation < second_10.lease_generation
unfolding claimed
second_10_newer = omega arith

stale_forever_example :
    Refused settings 41 job_10
      (run settings exhausted taken_over ((41, does 0 (completes true)) ∷ [])).db
stale_forever_example =
    stale_forever settings exhausted taken_over ((41, does 0 (completes true)) ∷ []) 41 job_10
      second_10 (run-Sane settings exhausted opened _ opened-Sane) second_10_there second_10_newer

abbrev all_locked : Locks
all_locked = record { job_locked = λ k. false; repository_locked = λ k. true }

guarded : mutation_guard 6 job_10 opened.db ≡ ok (false, opened.db)
unfolding program
guarded = refl

guard_excludes_takeover_example :
    assert_ownership 6 job_10
      (after opened.db (claim_job settings exhausted 50 all_locked 8 80 opened.db))
    ≡ ok (false, after opened.db (claim_job settings exhausted 50 all_locked 8 80 opened.db))
unfolding claimed
guard_excludes_takeover_example =
    guard_excludes_takeover settings exhausted all_locked 8 80 50 6 job_10 opened.db false
      opened-Sane.consistent
      (record { now = job_10; found = job_10_there; evolution = Evolution-refl job_10 }) refl
      guarded

-- The tables in which job 10 waits and worker 7 is registered.
abbrev pub waiting : World
waiting =
    run settings exhausted start
      ((1, registers 70 7 0 0 0) ∷ (2, submits 10 1 full (some 5) (pos 0)) ∷ [])

abbrev keyed_10 : Job
keyed_10 = requested_job settings 2 10 1 full (some 5) (pos 0)

waiting-Sane : Sane waiting
waiting-Sane =
    run-Sane settings exhausted start
      ((1, registers 70 7 0 0 0) ∷ (2, submits 10 1 full (some 5) (pos 0)) ∷ []) start-Sane

abbrev claimed_db : Db
claimed_db = after waiting.db (claim_job settings exhausted 5 no_locks 7 70 waiting.db)

claim_runs :
    claim_job settings exhausted 5 no_locks 7 70 waiting.db
    ≡ ok (some (claimed settings 5 7 keyed_10), claimed_db)
unfolding program
claim_runs = refl

claim_job-Taken_example :
    Taken settings 5 no_locks 7 70 waiting.db claimed_db (claimed settings 5 7 keyed_10)
claim_job-Taken_example =
    claim_job-Taken settings exhausted 5 no_locks 7 70 waiting.db claimed_db
      (claimed settings 5 7 keyed_10) waiting-Sane.consistent claim_runs

claim_job-ne-unique_violation_example :
    claim_job settings exhausted 5 no_locks 7 70 waiting.db ≢ err unique_violation
claim_job-ne-unique_violation_example =
    claim_job-ne-unique_violation settings exhausted 5 no_locks 7 70 waiting.db
      waiting-Sane.consistent

keyed_10_there : waiting.db.jobs.row 10 ≡ some keyed_10
unfolding program
keyed_10_there = refl

claim_job_locked_example :
    (after waiting.db (claim_job settings exhausted 5 all_locked 7 70 waiting.db)).jobs.row 10
    ≡ some keyed_10
claim_job_locked_example =
    claim_job_locked settings exhausted 5 all_locked 7 70 waiting.db waiting-Sane.consistent 10
      keyed_10 keyed_10_there refl

abbrev submitted_db : Db
submitted_db = after start.db (submit_job settings 2 10 1 full (some 5) (pos 0) start.db)

submitted : submit_job settings 2 10 1 full (some 5) (pos 0) start.db ≡ ok (keyed_10, submitted_db)
unfolding program
submitted = refl

submit_job_reused_example :
    submit_job settings 9 11 1 incremental (some 5) (pos 0) submitted_db ≡ err value_error
unfolding same_request
submit_job_reused_example =
    submit_job_reused settings settings 2 9 10 11 1 1 5 full incremental (pos 0) (pos 0) start.db
      submitted_db keyed_10 submitted refl

submit_job_again_example :
    submit_job settings 9 11 1 full (some 5) (pos 0) submitted_db ≡ ok (keyed_10, submitted_db)
submit_job_again_example =
    submit_job_again settings settings 2 9 10 11 1 5 full (pos 0) start.db submitted_db keyed_10
      submitted
