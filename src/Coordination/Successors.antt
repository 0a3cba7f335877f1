-- ===== src/Coordination/Successors.antt =====
-- A finished job has one successor, however often it is submitted again.
use repomesh.Prelude.{
  ℕ, ◌≡◌, ◌⊎◌, sym, refl, true, false, some, arith, Bool-cases, Option-cases, inl, inr, is_some,
  subst,
}
use repomesh.Table.{Table, put, insert, find_where, id_eq}
use repomesh.Table.Finds.{find_where-insert}
use repomesh.Coordination.Schema.{Db, Job, Settings, Result, Failure, ok, err, is_terminal}
use repomesh.Coordination.Jobs.{
  insert_job, is_child_of, track_successor, child_job, successor, resubmit_job,
}

result_cases :
    {A : Type 0} (r : Result (A × Db))
    → ((a : A) × (d : Db) × (r ≡ ok (a, d))) ⊎ ((f : Failure) × (r ≡ err f))
result_cases (ok (a, d)) = inl (a, d, refl)
result_cases (err f) = inr (f, refl)

-- The finished job is there, and `j` is its successor.
record Succeeded (id : ℕ) (j : Job) (jobs : Table ℕ Job) : Type 0 where
  old : Job
  there : jobs.row id ≡ some old
  over : is_terminal old.status ≡ true
  child : find_where (is_child_of old.id) jobs ≡ some j

inserted_there :
    (k : ℕ) (x : Job) (id : ℕ) (old : Job) (t : Table ℕ Job)
    → is_some (t.row k) ≡ false
    → t.row id ≡ some old
    → (insert k x t).row id ≡ some old
unfolding insert put
inserted_there k x id old t unused there = ground arith

child_of :
    (s : Settings) (now fresh : ℕ) (old : Job)
    → is_child_of old.id (child_job s now fresh old) ≡ true
unfolding is_child_of
child_of s now fresh old = ground arith

successor-Succeeded :
    (s : Settings) (now fresh id : ℕ) (old j : Job) (db new : Db)
    → db.jobs.row id ≡ some old
    → is_terminal old.status ≡ true
    → successor s now fresh old db ≡ ok (j, new)
    → Succeeded id j new.jobs
unfolding successor insert_job
successor-Succeeded s now fresh id old j db new there over e =
    elim (Option-cases (find_where (is_child_of old.id) db.jobs)) [
      | inr (c, found) ↦
          let p : (c ≡ j) × (db ≡ new) = ground arith in
          subst (λ d. Succeeded id j d.jobs) p.1
            (record { old = old; there = there; over = over; child = rw (sym p.0) found })
      | inl childless ↦ elim (Bool-cases (is_some (db.jobs.row fresh))) [
        | inl used ↦ absurd (ground arith)
        | inr unused ↦ elim (Bool-cases (is_some (db.executions.row old.repository_id))) [
          | inr homeless ↦ absurd (ground arith)
          | inl housed ↦
              let p : (child_job s now fresh old ≡ j)
                  × (record db { jobs = insert fresh (child_job s now fresh old) db.jobs } ≡ new) =
                ground arith in
              subst (λ d. Succeeded id j d.jobs) p.1
                (subst (λ x. Succeeded id x (insert fresh (child_job s now fresh old) db.jobs)) p.0
                  (record {
                    old = old;
                    there =
                        inserted_there fresh (child_job s now fresh old) id old db.jobs unused
                          there;
                    over = over;
                    child =
                        find_where-insert (is_child_of old.id) db.jobs fresh
                          (child_job s now fresh old) childless (child_of s now fresh old);
                  }))
        ]
      ]
    ]

resubmit_job-Succeeded :
    (s : Settings) (now fresh id : ℕ) (db new : Db) (j : Job)
    → resubmit_job s now fresh id db ≡ ok (j, new)
    → Succeeded id j new.jobs
unfolding resubmit_job track_successor
resubmit_job-Succeeded s now fresh id db new j e = elim (Option-cases (db.jobs.row id)) [
  | inl gone ↦ absurd (ground arith)
  | inr (old, there) ↦ elim (Bool-cases (is_terminal old.status)) [
    | inr open_still ↦ absurd (ground arith)
    | inl over ↦ elim (result_cases (successor s now fresh old db)) [
      | inl (c, mid, made) ↦
          let p : (c ≡ j) × (mid.jobs ≡ new.jobs) = ground arith in
          subst (Succeeded id j) p.1 (
            subst (λ x. Succeeded id x mid.jobs) p.0
              (successor-Succeeded s now fresh id old c db mid there over made))
      | inr (f, failed_with) ↦ absurd (ground arith)
    ]
  ]
]

-- A resubmission that found the successor there.
pub record Repeated (j : Job) (old : Db) (r : Result (Job × Db)) : Type 0 where
  pub new : Db
  pub is_ok : r ≡ ok (j, new)
  pub same_jobs : new.jobs ≡ old.jobs

-- Right after a job has been submitted again, a further resubmission of it, at any reading of the
-- clock, returns the same successor and writes no row of `jobs`.
pub resubmit_job-Repeated :
    (s s' : Settings) (now now' fresh fresh' id : ℕ) (db new : Db) (j : Job)
    → resubmit_job s now fresh id db ≡ ok (j, new)
    → Repeated j new (resubmit_job s' now' fresh' id new)
unfolding resubmit_job successor track_successor
resubmit_job-Repeated s s' now now' fresh fresh' id db new j e =
    let k : Succeeded id j new.jobs = resubmit_job-Succeeded s now fresh id db new j e in
    rw (k.there, resubmit_job)
      (rw k.over (rw (k.child, successor) (record { new = _; is_ok = refl; same_jobs = refl })))
