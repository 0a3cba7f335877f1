-- ===== src/Tests/Operations.antt =====
-- Single operations on the tables of the histories in Tests.Coordination.
use repomesh.Prelude.{◌≡◌, refl, true, false, none, some, arith}
use repomesh.Coordination.Schema.{Db, Job, ok, after, completed}
use repomesh.Coordination.Jobs.{resubmit_job, child_job, request_cancel}
use repomesh.Coordination.Workers.{register_worker}
use repomesh.Coordination.Claims.{claimed, no_locks, candidate}
use repomesh.Coordination.Claims.Choice.{IsFirst, candidate-IsFirst}
use repomesh.Coordination.Leases.{owned_row, finished, finish, schedule_retry}
use repomesh.Coordination.Watches.{
  set_enabled, observe, observe_enabled, observed, watch_job, submit_watch, is_ready,
}
use repomesh.Coordination.World.{start}
use repomesh.Coordination.Sessions.{ShutOut, register_worker-ShutOut}
use repomesh.Coordination.Endings.{
  Ended, finish-Ended, Rescheduled, schedule_retry-Rescheduled, IsCancelled, finish-IsCancelled,
}
use repomesh.Coordination.Successors.{Repeated, resubmit_job-Repeated}
use repomesh.Coordination.Debounce.{Submitted, observe-Submitted, OnlyNoted, observe-OnlyNoted}
use repomesh.Tests.Coordination.{
  settings, exhausted, program, opened, opened-Sane, job_10, ended, finished_10,
}

job_10_owned : owned_row 6 job_10 opened.db ≡ some job_10
unfolding program
job_10_owned = refl

finish-Ended_example :
    Ended job_10
      (finished 6 completed none 0 job_10)
      opened.db
      (after opened.db (finish 6 job_10 completed none 0 opened.db))
finish-Ended_example =
    finish-Ended 6 0 job_10 job_10 completed none opened.db opened-Sane.consistent job_10_owned refl
      refl

job_10_calm : job_10.cancel_requested ≡ false
unfolding claimed
job_10_calm = refl

schedule_retry-Rescheduled_example :
    Rescheduled settings 6 1 job_10
      (after opened.db (schedule_retry settings 6 1 job_10 exhausted opened.db))
schedule_retry-Rescheduled_example =
    schedule_retry-Rescheduled settings 6 1 job_10 job_10 exhausted opened.db job_10_owned
      job_10_calm

finish-IsCancelled_example : IsCancelled job_10.id (
    after
      (after opened.db (request_cancel 5 job_10.id opened.db))
      (finish 6 job_10 completed none 0 (after opened.db (request_cancel 5 job_10.id opened.db))))
finish-IsCancelled_example =
    finish-IsCancelled 5 6 0 job_10 job_10 completed none opened.db job_10_owned

-- Worker 7 comes back as session 71 after its first session went silent.
abbrev back : Db
back = after opened.db (register_worker settings 99 71 7 0 0 0 opened.db)

came_back : register_worker settings 99 71 7 0 0 0 opened.db ≡ ok (71, back)
unfolding program
came_back = refl

register_worker-ShutOut_example : ShutOut 7 70 back
register_worker-ShutOut_example =
    register_worker-ShutOut settings 99 71 7 0 0 0 71 70 opened.db back came_back
      (λ e. omega (arith, e))

abbrev again : Db
again = after ended.db (resubmit_job settings 7 11 10 ended.db)

abbrev job_11 : Job
job_11 = child_job settings 7 11 finished_10

resubmitted : resubmit_job settings 7 11 10 ended.db ≡ ok (job_11, again)
unfolding program resubmit_job
resubmitted = refl

resubmit_job-Repeated_example : Repeated job_11 again (resubmit_job settings 8 12 10 again)
resubmit_job-Repeated_example =
    resubmit_job-Repeated settings settings 7 8 11 12 10 ended.db again job_11 resubmitted

-- Repository 1 with its watch on, seen at 20 with fingerprint 4 and again at 30.
abbrev seen : Db
seen =
    after start.db
      (observe settings 20 13 1 4 none (set_enabled settings 19 1 true (λ db. db) start.db))

abbrev watched : Db
watched = after seen (observe settings 30 14 1 4 none seen)

observed_change :
    observe settings 30 14 1 4 none seen ≡ ok (some (watch_job settings 30 14 1), watched)
unfolding program observe set_enabled observe_enabled is_ready observed submit_watch
observed_change = refl

observe-Submitted_example :
    Submitted settings 30 14 1 4 none seen watched (watch_job settings 30 14 1)
observe-Submitted_example =
    observe-Submitted settings 30 14 1 4 none seen watched (watch_job settings 30 14 1)
      observed_change

observe-OnlyNoted_example : OnlyNoted (observe settings 31 15 1 5 none watched)
observe-OnlyNoted_example =
    observe-OnlyNoted settings settings 30 31 14 15 1 4 5 none none seen watched
      (watch_job settings 30 14 1) observed_change

-- The lease of job 10 has ended at 36.
chosen : candidate 36 no_locks opened.db ≡ some job_10
unfolding program
chosen = refl

candidate-IsFirst_example : IsFirst 36 no_locks opened.db job_10
candidate-IsFirst_example = candidate-IsFirst 36 no_locks opened.db job_10 chosen
