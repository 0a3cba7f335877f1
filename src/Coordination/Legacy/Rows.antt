-- ===== src/Coordination/Legacy/Rows.antt =====
-- The import of one older job: what it keeps and what it leaves.
use repomesh.Prelude.{
  ℕ, ◌≡◌, refl, Bool, true, false, none, some, is_some, arith, Bool-cases, Option-cases, inl, inr,
}
use repomesh.Table.{insert, ensure, id_eq}
use repomesh.Table.Finds.{find_where-insert_some}
use repomesh.Coordination.Schema.{
  Db, Job, Execution, Status, queued, running, retrying, completed, completed_with_errors, failed,
  cancelled, Settings, Result, ok, err, is_running, is_terminal,
}
use repomesh.Coordination.Jobs.{is_known, has_key, no_execution, ensure_execution}
use repomesh.Coordination.Invariant.{JobOk, Consistent}
use repomesh.Coordination.Invariant.Inserts.{insert-Inv, ensure-Inv, ensured-HasHome}
use repomesh.Coordination.Legacy.{
  OldJob, imported_status, imported_job, has_conflict, import_job, counting,
}

ended_waits : (s : Status) → is_terminal s ≡ true → is_running s ≡ false
ended_waits completed h = refl
ended_waits completed_with_errors h = refl
ended_waits failed h = refl
ended_waits cancelled h = refl
ended_waits queued h = absurd (ground arith)
ended_waits running h = absurd (ground arith)
ended_waits retrying h = absurd (ground arith)

pub imported_waits : (old : OldJob) → is_running (imported_status old) ≡ false
unfolding imported_status
imported_waits old = elim (Bool-cases (is_terminal old.status)) [
  | inl ended ↦ rw ended (ended_waits old.status ended)
  | inr waits ↦ rw waits (ground arith)
]

imported-JobOk : (s : Settings) (now : ℕ) (old : OldJob) → JobOk (imported_job s now old)
unfolding imported_job
imported-JobOk s now old = record {
  lease = rw (imported_waits old) refl;
  budget = elim (Bool-cases (is_terminal old.status)) [
    | inl ended ↦ rw ended (omega arith)
    | inr waits ↦ rw waits (omega arith)
  ];
}

-- What an import that succeeds leaves.
abbrev pub OnOk : {A : Type 0} → (Db → Type 0) → Result (A × Db) → Type 0
OnOk P (ok (a, db)) = P db
OnOk P (err e) = Unit {0}

pub OnOk-counting :
    (P : Db → Type 0) (new : Bool) (r : Result (ℕ × Db)) → OnOk P r → OnOk P (counting new r)
OnOk-counting P true (ok (n, db)) h = h
OnOk-counting P false (ok (n, db)) h = h
OnOk-counting P true (err e) h = h
OnOk-counting P false (err e) h = h

pub OnOk-both :
    {A : Type 0} (P Q : Db → Type 0) (r : Result (A × Db))
    → OnOk P r
    → OnOk Q r
    → OnOk (λ db. P db × Q db) r
OnOk-both P Q (ok (a, db)) p q = (p, q)
OnOk-both P Q (err e) p q = tt

-- An import of the row would change nothing.
pub record Present (old : OldJob) (db : Db) : Type 0 where
  pub known : is_known old.mode ≡ true
  pub conflict : has_conflict old db ≡ true
  pub execution : Execution
  pub home : db.executions.row old.repository_id ≡ some execution

module _ (s : Settings) (now : ℕ) where
  pub Present-again :
      (old : OldJob) (db : Db) → Present old db → import_job s now old db ≡ ok (false, db)
  unfolding import_job ensure_execution ensure
  Present-again old db p = rw (p.known, p.conflict, p.home) refl

  new_row : (old : OldJob) (db : Db) → has_conflict old db ≡ false → db.jobs.row old.id ≡ none
  unfolding has_conflict
  new_row old db h = elim (Option-cases (db.jobs.row old.id)) [
    | inl new ↦ new
    | inr (j, there) ↦ absurd (ground arith)
  ]

  pub known_row-Kept :
      (k : ℕ) (j : Job) (old : OldJob) (db : Db)
      → db.jobs.row k ≡ some j
      → OnOk (λ new. new.jobs.row k ≡ some j) (import_job s now old db)
  unfolding import_job has_conflict insert
  known_row-Kept k j old db h = elim (Bool-cases (is_known old.mode)) [
    | inr bad ↦ rw bad tt
    | inl good ↦ elim (Bool-cases (has_conflict old db)) [
      | inl there ↦ rw (good, there) h
      | inr new ↦ rw (good, new) (ground (arith, new_row old db new))
    ]
  ]

  pub import_job-Consistent :
      (old : OldJob) (db : Db) → Consistent db → OnOk Consistent (import_job s now old db)
  unfolding import_job has_conflict imported_job
  import_job-Consistent old db v = elim (Bool-cases (is_known old.mode)) [
    | inr bad ↦ rw bad tt
    | inl good ↦ elim (Bool-cases (has_conflict old db)) [
      | inl there ↦ rw (good, there) (ensure-Inv v old.repository_id)
      | inr new ↦
          rw (good, new)
            (insert-Inv (ensure-Inv v old.repository_id) (imported_job s now old)
              (new_row old db new) (imported-JobOk s now old)
              (ensured-HasHome db.executions old.repository_id) (imported_waits old))
    ]
  ]

  pub import_job-Present : (old : OldJob) (db : Db) → OnOk (Present old) (import_job s now old db)
  unfolding import_job has_conflict ensure_execution insert
  import_job-Present old db = elim (Bool-cases (is_known old.mode)) [
    | inr bad ↦ rw bad tt
    | inl good ↦
        let h = ensured-HasHome db.executions old.repository_id in
        elim (Bool-cases (has_conflict old db)) [
          | inl there ↦
              rw (good, there)
                (record { known = good; conflict = there; execution = h.execution; home = h.found })
          | inr new ↦
              rw (good, new)
                (record {
                  known = good;
                  conflict = ground arith;
                  execution = h.execution;
                  home = h.found;
                })
        ]
  ]

  conflict_stays :
      (o : OldJob) (db : Db) (k : ℕ) (j : Job)
      → has_conflict o db ≡ true
      → db.jobs.row k ≡ none
      → has_conflict o (record db { jobs = insert k j db.jobs }) ≡ true
  unfolding has_conflict insert
  conflict_stays o db k j h new = elim (Bool-cases (is_some (db.jobs.row o.id))) [
    | inl there ↦ ground arith
    | inr off ↦ ground (arith, find_where-insert_some (has_key o.idempotency_key) db.jobs k j new)
  ]

  home_stays :
      (r i : ℕ) (e : Execution) (db : Db)
      → db.executions.row i ≡ some e
      → (ensure r no_execution db.executions).row i ≡ some e
  unfolding ensure
  home_stays r i e db h = elim (Option-cases (db.executions.row r)) [
    | inl gone ↦ ground (arith, h)
    | inr (other, there) ↦ ground (arith, h)
  ]

  pub Present-Kept :
      (o old : OldJob) (db : Db) → Present o db → OnOk (Present o) (import_job s now old db)
  unfolding import_job ensure_execution has_conflict
  Present-Kept o old db p =
      let home = home_stays old.repository_id o.repository_id p.execution db p.home in
      elim (Bool-cases (is_known old.mode)) [
        | inr bad ↦ rw bad tt
        | inl good ↦ elim (Bool-cases (has_conflict old db)) [
          | inl there ↦
              rw (good, there)
                (record {
                  known = p.known;
                  conflict = p.conflict;
                  execution = p.execution;
                  home = home;
                })
          | inr new ↦
              rw (good, new)
                (record {
                  known = p.known;
                  conflict =
                      conflict_stays o db old.id (imported_job s now old) p.conflict
                        (new_row old db new);
                  execution = p.execution;
                  home = home;
                })
        ]
      ]
