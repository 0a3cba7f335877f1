-- ===== src/Coordination/Idempotency.antt =====
-- Repeated requests: submit_job with one key, resubmit_job of one job.
use repomesh.Prelude.{
  subst, ℕ, ◌≡◌, true, Option, none, some, arith, Bool-cases, Option-cases, inl, inr, is_some,
  if◌then◌else◌,
}
use repomesh.Prelude.Int.{ℤ}
use repomesh.Table.{insert, ensure, find_where, id_eq}
use repomesh.Table.Finds.{find_where-insert}
use repomesh.Coordination.Schema.{
  Db, Job, Mode, full, incremental, unknown, Settings, Result, ok, err, value_error,
}
use repomesh.Coordination.Jobs.{
  insert_job, has_key, same_request, ensure_execution, requested_job, valid_request, submit_job,
}

same_request_refl :
    (s : Settings) (now fresh repository : ℕ) (mode : Mode) (key : Option ℕ) (priority : ℤ)
    → same_request repository mode priority (requested_job s now fresh repository mode key priority)
      ≡ true
unfolding same_request
same_request_refl s now fresh repository full key priority = ground arith
same_request_refl s now fresh repository incremental key priority = ground arith
same_request_refl s now fresh repository unknown key priority = ground arith

-- What a successful submission with a key leaves: the job is the one that the key finds, it asks
-- for the requested work, and the repository has its row.
record Keyed (repository key : ℕ) (mode : Mode) (priority : ℤ) (db : Db) (j : Job) : Type 0 where
  by_key : find_where (has_key (some key)) db.jobs ≡ some j
  fits : same_request repository mode priority j ≡ true
  housed : is_some (db.executions.row repository) ≡ true

ensured_row : (r : ℕ) (db : Db) → is_some ((ensure_execution r db).executions.row r) ≡ true
unfolding ensure_execution ensure
ensured_row r db = elim (Option-cases (db.executions.row r)) [
  | inl gone ↦ rw (gone, ensure) (ground arith)
  | inr (e, there) ↦ ground arith
]

module _ (s : Settings) (now fresh repository key : ℕ) (mode : Mode) (priority : ℤ) (db : Db) where
  abbrev asked : Job
  asked = requested_job s now fresh repository mode (some key) priority

  asked_key : has_key (some key) asked ≡ true
  unfolding has_key
  asked_key = ground arith

  found-Keyed :
      (old j : Job) (new : Db)
      → find_where (has_key (some key)) db.jobs ≡ some old
      → if◌then◌else◌ {A = Result (Job × Db)}
          (same_request repository mode priority old)
          (ok (old, ensure_execution repository db))
          (err value_error)
        ≡ ok (j, new)
      → Keyed repository key mode priority new j
  found-Keyed old j new found e = elim (Bool-cases (same_request repository mode priority old)) [
    | inr other ↦ absurd (ground arith)
    | inl same ↦
        let p : (old ≡ j) × (ensure_execution repository db ≡ new) = ground arith in
        subst (λ d. Keyed repository key mode priority d j) p.1
          (subst (λ x. Keyed repository key mode priority (ensure_execution repository db) x) p.0
            (record {
              by_key = unfold ensure_execution in found;
              fits = same;
              housed = ensured_row repository db;
            }))
  ]

  inserted : Db → Db
  inserted d = record d { jobs = insert asked.id asked d.jobs }

  inserted-Keyed :
      find_where (has_key (some key)) db.jobs ≡ none
      → Keyed repository key mode priority (inserted (ensure_execution repository db)) asked
  unfolding inserted
  inserted-Keyed new = record {
    by_key =
        find_where-insert (has_key (some key)) (ensure_execution repository db).jobs fresh asked
          (unfold ensure_execution in new) asked_key;
    fits = same_request_refl s now fresh repository mode (some key) priority;
    housed = ensured_row repository db;
  }

  insert_parts :
      (d new : Db) (j : Job) → insert_job asked d ≡ ok (j, new) → (asked ≡ j) × (inserted d ≡ new)
  unfolding insert_job inserted
  insert_parts d new j e = ground arith

  -- After a successful submission the key finds the job that it returned.
  submit_job-Keyed :
      (j : Job) (new : Db)
      → submit_job s now fresh repository mode (some key) priority db ≡ ok (j, new)
      → Keyed repository key mode priority new j
  unfolding submit_job
  submit_job-Keyed j new e = elim (Bool-cases (valid_request mode (some key))) [
    | inr bad ↦ absurd (ground arith)
    | inl good ↦ elim (Option-cases (find_where (has_key (some key)) db.jobs)) [
      | inr (old, found) ↦ found-Keyed old j new found (rw (good, found, submit_job) at e)
      | inl none_yet ↦
          let p : (asked ≡ j) × (inserted (ensure_execution repository db) ≡ new) =
            insert_parts (ensure_execution repository db) new j
              (rw (good, none_yet, submit_job) at e) in
          subst (λ d. Keyed repository key mode priority d j) p.1
            (subst
              (λ x.
                Keyed repository key mode priority (inserted (ensure_execution repository db)) x)
              p.0 (inserted-Keyed none_yet))
    ]
  ]

ensure_execution_again :
    (r : ℕ) (db : Db) → is_some (db.executions.row r) ≡ true → ensure_execution r db ≡ db
unfolding ensure_execution ensure
ensure_execution_again r db h = elim (Option-cases (db.executions.row r)) [
  | inl gone ↦ absurd (ground arith)
  | inr (e, there) ↦ rw (there, ensure)
]

-- Right after a submission with a key has returned a job, another one with that key, of a known
-- mode and at any reading of the clock, returns the same job and writes no row of `jobs` if it
-- asks for the same work, and is refused if its repository, mode or priority differs.
pub submit_job_reused :
    (s s' : Settings) (now now' fresh fresh' repository repository' key : ℕ) (mode mode' : Mode)
    (priority priority' : ℤ) (db new : Db) (j : Job)
    → submit_job s now fresh repository mode (some key) priority db ≡ ok (j, new)
    → valid_request mode' (some key) ≡ true
    → submit_job s' now' fresh' repository' mode' (some key) priority' new
      ≡ if◌then◌else◌ {A = Result (Job × Db)}
          (same_request repository' mode' priority' j)
          (ok (j, ensure_execution repository' new))
          (err value_error)
unfolding submit_job
submit_job_reused s s' now now' fresh fresh' repository repository' key mode mode' priority
      priority' db new j e good =
    let k : Keyed repository key mode priority new j =
      submit_job-Keyed s now fresh repository key mode priority db j new e in
    rw (good, k.by_key, submit_job)

-- Right after a submission with a key has returned a job, the same request returns the same job
-- and leaves the tables exactly as they are.
pub submit_job_again :
    (s s' : Settings) (now now' fresh fresh' repository key : ℕ) (mode : Mode) (priority : ℤ)
    (db new : Db) (j : Job)
    → submit_job s now fresh repository mode (some key) priority db ≡ ok (j, new)
    → submit_job s' now' fresh' repository mode (some key) priority new ≡ ok (j, new)
unfolding submit_job
submit_job_again s s' now now' fresh fresh' repository key mode priority db new j e =
    elim (Bool-cases (valid_request mode (some key))) [
      | inr bad ↦ absurd (ground arith)
      | inl good ↦
          let k : Keyed repository key mode priority new j =
            submit_job-Keyed s now fresh repository key mode priority db j new e in
          rw (good, k.by_key, submit_job)
            (rw (k.fits, ensure_execution_again repository new k.housed))
    ]
