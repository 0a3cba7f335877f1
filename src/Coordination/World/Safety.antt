-- ===== src/Coordination/World/Safety.antt =====
-- What holds in every world that the processes can reach, in any order of their steps.
use repomesh.Prelude.{
  ℕ, zero, suc, ◌≡◌, refl, sym, subst, Option, none, some, List, [], ◌∷◌, arith, All,
}
use repomesh.Table
use repomesh.Table.{Table, id_eq}
use repomesh.Coordination.Schema.{Db, Job, Message, Settings, Result, ok, err, after}
use repomesh.Coordination.Claims.{Locks, claimed, claim_job}
use repomesh.Coordination.Claimed.{Taken, claim_job-Taken}
use repomesh.Coordination.Invariant.{Consistent}
use repomesh.Coordination.Invariant.Held.{
  renew_lease-Consistent, update_progress-Consistent, complete_job-Consistent,
  cancel_job-Consistent, schedule_retry-Consistent,
}
use repomesh.Coordination.Invariant.Requests.{
  submit_job-Consistent, resubmit_job-Consistent, request_cancel-Consistent,
}
use repomesh.Coordination.Invariant.Watching.{
  ensure_watch-Consistent, write_enabled-Consistent, record_error-Consistent, observe-Consistent,
}
use repomesh.Coordination.Invariant.Claiming.Loop.{claim_job-Consistent}
use repomesh.Coordination.Evolution.Held.{
  renew_lease-Evolves, update_progress-Evolves, complete_job-Evolves, cancel_job-Evolves,
  schedule_retry-Evolves,
}
use repomesh.Coordination.Evolution.Requests.{
  submit_job-Evolves, resubmit_job-Evolves, request_cancel-Evolves, observe-Evolves,
}
use repomesh.Coordination.Evolution.Claiming.{claim_job-Evolves}
use repomesh.Coordination.Evolution.Registry.{
  SameWork, register_worker-SameWork, heartbeat_worker-SameWork, stop_worker-SameWork,
  ensure_watch-Evolves, write_enabled-Evolves, record_error-Evolves,
}
use repomesh.Coordination.Evolution.{
  Remains, Evolves, Evolution-refl, Evolution-trans, Evolves-refl, Evolves-trans,
}
use repomesh.Coordination.World.{
  World, Action, Deed, renews, reports, completes, acknowledges_cancel, retries, act, act_on,
  holding, receive, submits, resubmits, cancels, registers, beats, stops, watches, switches,
  notes_error, observes, claims, does, step, start, run,
}

-- A job that was handed out is an earlier version of its present row.
abbrev pub IsKnown : Db → Job → Type 0
IsKnown db held = Remains db.jobs held.id held

pub record Sane (w : World) : Type 0 where
  pub consistent : Consistent w.db
  pub known : All (IsKnown w.db) w.handed

IsKnown-Evolves :
    (old new : Db) (held : List Job)
    → Evolves old.jobs new.jobs
    → All (IsKnown old) held
    → All (IsKnown new) held
unfolding Evolves
IsKnown-Evolves old new [] e all = tt
IsKnown-Evolves old new (j ∷ js) e all =
    let r : Remains new.jobs j.id all.0.now = e j.id all.0.now all.0.found in
    (
      record {
        now = r.now;
        found = r.found;
        evolution = Evolution-trans all.0.evolution r.evolution;
      },
      IsKnown-Evolves old new js e all.1,
    )

-- The repository that a known job names is its row's.
at_home :
    (db : Db) (held : Job)
    → IsKnown db held
    → (row : Job) → db.jobs.row held.id ≡ some row
    → held.repository_id ≡ row.repository_id
at_home db held k row h = ground (arith, k.found, k.evolution.same_home)

act-Consistent :
    (s : Settings) (now : ℕ) (held : Job) (deed : Deed) (db : Db)
    → Consistent db
    → IsKnown db held
    → Consistent (act s now held deed db)
unfolding act
act-Consistent s now held renews db v k = renew_lease-Consistent now held db v s
act-Consistent s now held (reports stats path error) db v k =
    update_progress-Consistent now held db v stats path error
act-Consistent s now held (completes with_errors) db v k =
    complete_job-Consistent now held db v (at_home db held k) with_errors
act-Consistent s now held acknowledges_cancel db v k =
    cancel_job-Consistent now held db v (at_home db held k)
act-Consistent s now held (retries jitter error) db v k =
    schedule_retry-Consistent now held db v (at_home db held k) s jitter error

act-Evolves :
    (s : Settings) (now : ℕ) (held : Job) (deed : Deed) (db : Db)
    → Evolves db.jobs (act s now held deed db).jobs
unfolding act
act-Evolves s now held renews db = renew_lease-Evolves now held db s
act-Evolves s now held (reports stats path error) db =
    update_progress-Evolves now held db stats path error
act-Evolves s now held (completes with_errors) db = complete_job-Evolves now held db with_errors
act-Evolves s now held acknowledges_cancel db = cancel_job-Evolves now held db
act-Evolves s now held (retries jitter error) db = schedule_retry-Evolves now held db s jitter error

-- What every step gives: sane worlds, and rows that evolve.
record Good (old new : World) : Type 0 where
  sane : Sane new
  evolves : Evolves old.db.jobs new.db.jobs

-- A step that hands nothing out.
quiet :
    (w : World) (db : Db)
    → Sane w
    → Consistent db
    → Evolves w.db.jobs db.jobs
    → Good w (record w { db = db })
quiet w db s v e = record {
  sane = record { consistent = v; known = IsKnown-Evolves w.db db w.handed e s.known };
  evolves = e;
}

act_on-Good :
    (s : Settings) (now : ℕ) (held : Option Job) (deed : Deed) (w : World)
    → Sane w
    → ((j : Job) → held ≡ some j → IsKnown w.db j)
    → Good w (act_on s now held deed w)
unfolding act_on
act_on-Good s now none deed w v k = record { sane = v; evolves = Evolves-refl w.db.jobs }
act_on-Good s now (some j) deed w v k =
    quiet w (act s now j deed w.db) v (act-Consistent s now j deed w.db v.consistent (k j refl))
      (act-Evolves s now j deed w.db)

holding-IsKnown :
    (db : Db) (held : List Job) (i : ℕ)
    → All (IsKnown db) held
    → (j : Job) → holding held i ≡ some j
    → IsKnown db j
unfolding holding
holding-IsKnown db [] i all j h = absurd (ground arith)
holding-IsKnown db (x ∷ xs) zero all j h =
    let e : x ≡ j = ground arith in subst (IsKnown db) e all.0
holding-IsKnown db (x ∷ xs) (suc i) all j h = holding-IsKnown db xs i all.1 j h

receive-Good :
    (w : World) (r : Result (Option Job × Db))
    → Sane w
    → Consistent (after w.db r)
    → Evolves w.db.jobs (after w.db r).jobs
    → ((j : Job) (db : Db) → r ≡ ok (some j, db) → IsKnown db j)
    → Good w (receive w r)
unfolding receive
receive-Good w (ok (none, db)) s v e k = quiet w db s v e
receive-Good w (ok (some j, db)) s v e k = record {
  sane = record {
    consistent = v;
    known = (k j db refl, IsKnown-Evolves w.db db w.handed e s.known);
  };
  evolves = e;
}
receive-Good w (err f) s v e k = record { sane = s; evolves = e }

claimed-IsKnown :
    (s : Settings) (exhausted : Message) (now : ℕ) (locks : Locks) (worker session : ℕ) (db : Db)
    → Consistent db
    → (j : Job) (new : Db) → claim_job s exhausted now locks worker session db ≡ ok (some j, new)
    → IsKnown new j
unfolding claimed
claimed-IsKnown s exhausted now locks worker session db v j new e =
    let t : Taken s now locks worker session db new j =
      claim_job-Taken s exhausted now locks worker session db new j v e in
    let same : j.id ≡ t.row.id = ground (arith, t.is_claimed) in
    record {
      now = j;
      found = subst (λ i. new.jobs.row i ≡ some j) (sym same) t.found;
      evolution = Evolution-refl j;
    }

step-Good :
    (s : Settings) (exhausted : Message) (w : World) (a : ℕ × Action)
    → Sane w
    → Good w (step s exhausted w a)
unfolding step
step-Good s exhausted w (now, submits fresh repository mode key priority) v =
    quiet w _ v (submit_job-Consistent s now fresh repository mode key priority w.db v.consistent)
      (submit_job-Evolves s now fresh repository mode key priority w.db)
step-Good s exhausted w (now, resubmits fresh id) v =
    quiet w _ v (resubmit_job-Consistent s now fresh id w.db v.consistent)
      (resubmit_job-Evolves s now fresh id w.db)
step-Good s exhausted w (now, cancels id) v =
    quiet w _ v (request_cancel-Consistent now id w.db v.consistent)
      (request_cancel-Evolves now id w.db)
step-Good s exhausted w (now, registers session worker hostname pid version) v =
    let same : SameWork w.db _ =
      register_worker-SameWork s now session worker hostname pid version w.db in
    quiet w _ v (same.keeps v.consistent) same.evolves
step-Good s exhausted w (now, beats worker session current) v =
    let same : SameWork w.db _ = heartbeat_worker-SameWork now worker session current w.db in
    quiet w _ v (same.keeps v.consistent) same.evolves
step-Good s exhausted w (now, stops worker session) v =
    let same : SameWork w.db _ = stop_worker-SameWork now worker session w.db in
    quiet w _ v (same.keeps v.consistent) same.evolves
step-Good s exhausted w (now, watches repository enabled) v =
    quiet w _ v (ensure_watch-Consistent s repository enabled w.db v.consistent)
      (ensure_watch-Evolves s repository enabled w.db)
step-Good s exhausted w (now, switches repository enabled) v =
    quiet w _ v (write_enabled-Consistent now repository enabled w.db v.consistent)
      (write_enabled-Evolves now repository enabled w.db)
step-Good s exhausted w (now, notes_error repository message) v =
    quiet w _ v (record_error-Consistent now repository message w.db v.consistent)
      (record_error-Evolves now repository message w.db)
step-Good s exhausted w (now, observes fresh repository fingerprint indexed) v =
    quiet w _ v (observe-Consistent s now fresh repository fingerprint indexed w.db v.consistent)
      (observe-Evolves s now fresh repository fingerprint indexed w.db)
step-Good s exhausted w (now, claims locks worker session) v =
    receive-Good w (claim_job s exhausted now locks worker session w.db) v
      (claim_job-Consistent s exhausted now locks worker session w.db v.consistent)
      (claim_job-Evolves s exhausted now locks worker session w.db v.consistent)
      (claimed-IsKnown s exhausted now locks worker session w.db v.consistent)
step-Good s exhausted w (now, does i deed) v =
    act_on-Good s now (holding w.handed i) deed w v (holding-IsKnown w.db w.handed i v.known)

pub step-Sane :
    (s : Settings) (exhausted : Message) (w : World) (a : ℕ × Action)
    → Sane w
    → Sane (step s exhausted w a)
step-Sane s exhausted w a v = (step-Good s exhausted w a v).sane

pub run-Sane :
    (s : Settings) (exhausted : Message) (w : World) (history : List (ℕ × Action))
    → Sane w
    → Sane (run s exhausted w history)
unfolding run
run-Sane s exhausted w [] v = v
run-Sane s exhausted w (a ∷ rest) v =
    run-Sane s exhausted (step s exhausted w a) rest (step-Sane s exhausted w a v)

pub run-Evolves :
    (s : Settings) (exhausted : Message) (w : World) (history : List (ℕ × Action))
    → Sane w
    → Evolves w.db.jobs (run s exhausted w history).db.jobs
unfolding run
run-Evolves s exhausted w [] v = Evolves-refl w.db.jobs
run-Evolves s exhausted w (a ∷ rest) v =
    let g : Good w (step s exhausted w a) = step-Good s exhausted w a v in
    Evolves-trans w.db.jobs (step s exhausted w a).db.jobs _ g.evolves
      (run-Evolves s exhausted (step s exhausted w a) rest g.sane)

pub start-Sane : Sane start
unfolding start Table.empty
start-Sane = record {
  consistent = record {
    keyed = λ k j h. absurd (ground arith);
    sound = λ k j h. absurd (ground arith);
    housed = λ k j h. absurd (ground arith);
    reserved = λ k j h r. absurd (ground arith);
    holder = λ r k h. absurd (ground arith);
    fenced = λ k g a h. absurd (ground arith);
  };
  known = tt;
}
