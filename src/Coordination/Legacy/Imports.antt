-- ===== src/Coordination/Legacy/Imports.antt =====
-- The import of older jobs keeps the invariant and can be run again.
use repomesh.Coordination.Jobs.{is_known}
use repomesh.Prelude.{
  ℕ, ◌≡◌, refl, Bool, some, List, [], ◌∷◌, All, suc, ◌+◌, ◌⊎◌, inl, inr, true, false, sym, subst,
  length, length-append, Occurs, arith, Bool-cases, ◌==◌,
}
use repomesh.Table.{id_eq, insert}
use repomesh.Coordination.Schema.{Db, Job, Settings, Result, ok, err, is_running}
use repomesh.Coordination.Invariant.{Consistent}
use repomesh.Coordination.Legacy.{
  OldJob, import_job, counting, import_legacy_jobs, has_conflict, imported_job,
}
use repomesh.Coordination.Legacy.Rows.{
  OnOk, OnOk-counting, OnOk-both, Present, Present-again, known_row-Kept, import_job-Consistent,
  import_job-Present, Present-Kept, imported_waits,
}

module _ (s : Settings) (now : ℕ) where
  -- What follows for the rest of the rows from a row's own import.
  OnOk-then :
      (P Q : Db → Type 0) (rest : List OldJob) (r : Result (Bool × Db))
      → OnOk P r
      → ((next : Db) → P next → OnOk Q (import_legacy_jobs s now rest next))
      → OnOk Q (elim r [
        | err e ↦ err e
        | ok (new, next) ↦ counting new (import_legacy_jobs s now rest next)
      ])
  OnOk-then P Q rest (err e) h later = tt
  OnOk-then P Q rest (ok (new, next)) h later =
      OnOk-counting Q new (import_legacy_jobs s now rest next) (later next h)

  -- Whatever a row's import keeps, the whole import keeps.
  OnOk-import :
      (P : Db → Type 0)
      → ((old : OldJob) (db : Db) → P db → OnOk P (import_job s now old db))
      → (rows : List OldJob) (db : Db) → P db
      → OnOk P (import_legacy_jobs s now rows db)
  unfolding import_legacy_jobs
  OnOk-import P step [] db p = p
  OnOk-import P step (old ∷ rest) db p =
      OnOk-then P P rest (import_job s now old db) (step old db p)
        (λ next h. OnOk-import P step rest next h)

  -- After its import a row is there.
  All-Present :
      (rows : List OldJob) (db : Db)
      → OnOk (λ new. All (λ o. Present o new) rows) (import_legacy_jobs s now rows db)
  unfolding import_legacy_jobs
  All-Present [] db = tt
  All-Present (old ∷ rest) db =
      OnOk-then (Present old) (λ new. All (λ o. Present o new) (old ∷ rest)) rest
        (import_job s now old db) (import_job-Present s now old db)
        (λ next h.
          OnOk-both (Present old) (λ new. All (λ o. Present o new) rest)
            (import_legacy_jobs s now rest next)
            (OnOk-import (Present old) (λ o d p. Present-Kept s now old o d p) rest next h)
            (All-Present rest next))

  import_nothing :
      (rows : List OldJob) (db : Db)
      → All (λ o. Present o db) rows
      → import_legacy_jobs s now rows db ≡ ok (0, db)
  unfolding import_legacy_jobs
  import_nothing [] db all = refl
  import_nothing (old ∷ rest) db all =
      rw (Present-again s now old db all.0, import_legacy_jobs, import_nothing rest db all.1) refl

-- The job of an older row among these.
abbrev pub IsFrom : Settings → ℕ → List OldJob → Job → Type 0
IsFrom s now rows j =
    (old : OldJob) × Occurs old rows × (j ≡ imported_job s now old) × (is_running j.status ≡ false)

-- Every job after is one from before or the job of a row.
abbrev Origin : Settings → ℕ → List OldJob → Db → Db → Type 0
Origin s now rows db new =
    (k : ℕ) (j : Job) → new.jobs.row k ≡ some j → (db.jobs.row k ≡ some j) ⊎ IsFrom s now rows j

-- How many keys an import has added.
abbrev Added : ℕ → Result (ℕ × Db) → Type 0
Added before (ok (n, db)) = length db.jobs.keys ≡ before + n
Added before (err e) = Unit {0}

abbrev AddedOne : ℕ → Result (Bool × Db) → Type 0
AddedOne before (ok (true, db)) = length db.jobs.keys ≡ suc before
AddedOne before (ok (false, db)) = length db.jobs.keys ≡ before
AddedOne before (err e) = Unit {0}

module _ (s : Settings) (now : ℕ) where
  import_job-Origin :
      (old : OldJob) (db : Db) → OnOk (Origin s now (old ∷ []) db) (import_job s now old db)
  unfolding import_job insert
  import_job-Origin old db = elim (Bool-cases (is_known old.mode)) [
    | inr bad ↦ rw bad tt
    | inl good ↦ elim (Bool-cases (has_conflict old db)) [
      | inl there ↦ rw (good, there) (λ k j h. inl h)
      | inr new ↦
          rw (good, new)
            (λ k j h. elim (Bool-cases (k == old.id)) [
              | inr other ↦ inl (ground arith)
              | inl same ↦
                  let e : imported_job s now old ≡ j = ground arith in
                  inr (
                    old,
                    inl refl,
                    sym e,
                    subst (λ x. is_running x.status ≡ false) e
                        (unfold imported_job in imported_waits old),
                  )
            ])
    ]
  ]

  Origin-trans :
      (old : OldJob) (rest : List OldJob) (a b c : Db)
      → Origin s now (old ∷ []) a b
      → Origin s now rest b c
      → Origin s now (old ∷ rest) a c
  Origin-trans old rest a b c p q k j h = elim (q k j h) [
    | inr (o, there, e, waits) ↦ inr (o, inr there, e, waits)
    | inl known ↦ elim (p k j known) [
      | inl before ↦ inl before
      | inr (o, inl first, e, waits) ↦ inr (o, inl first, e, waits)
      | inr (o, inr nowhere, e, waits) ↦ absurd nowhere
    ]
  ]

  OnOk-map :
      (P Q : Db → Type 0) (r : Result (ℕ × Db)) → ((d : Db) → P d → Q d) → OnOk P r → OnOk Q r
  OnOk-map P Q (ok (n, d)) f h = f d h
  OnOk-map P Q (err e) f h = tt

  import-Origin :
      (rows : List OldJob) (db : Db)
      → OnOk (Origin s now rows db) (import_legacy_jobs s now rows db)
  unfolding import_legacy_jobs
  import-Origin [] db = λ k j h. inl h
  import-Origin (old ∷ rest) db =
      OnOk-then s now (Origin s now (old ∷ []) db) (Origin s now (old ∷ rest) db) rest
        (import_job s now old db) (import_job-Origin old db)
        (λ next p.
          OnOk-map (Origin s now rest next) (Origin s now (old ∷ rest) db)
            (import_legacy_jobs s now rest next) (λ d q. Origin-trans old rest db next d p q)
            (import-Origin rest next))

  import_job-AddedOne :
      (old : OldJob) (db : Db) → AddedOne (length db.jobs.keys) (import_job s now old db)
  unfolding import_job insert
  import_job-AddedOne old db = elim (Bool-cases (is_known old.mode)) [
    | inr bad ↦ rw bad tt
    | inl good ↦ elim (Bool-cases (has_conflict old db)) [
      | inl there ↦ rw (good, there) refl
      | inr new ↦ rw (good, new) (omega (arith, length-append db.jobs.keys (old.id ∷ [])))
    ]
  ]

  Added-counting_one :
      (before : ℕ) (r : Result (ℕ × Db)) → Added (suc before) r → Added before (counting true r)
  Added-counting_one before (ok (n, db)) h = omega (arith, h)
  Added-counting_one before (err e) h = tt

  Added-counting_none :
      (before : ℕ) (r : Result (ℕ × Db)) → Added before r → Added before (counting false r)
  Added-counting_none before (ok (n, db)) h = h
  Added-counting_none before (err e) h = tt

  Added-then :
      (before : ℕ) (rest : List OldJob) (r : Result (Bool × Db))
      → AddedOne before r
      → ((next : Db) → Added (length next.jobs.keys) (import_legacy_jobs s now rest next))
      → Added before (elim r [
        | err e ↦ err e
        | ok (new, next) ↦ counting new (import_legacy_jobs s now rest next)
      ])
  Added-then before rest (err e) h later = tt
  Added-then before rest (ok (true, next)) h later =
      Added-counting_one before (import_legacy_jobs s now rest next)
        (subst (λ x. Added x (import_legacy_jobs s now rest next)) h (later next))
  Added-then before rest (ok (false, next)) h later =
      Added-counting_none before (import_legacy_jobs s now rest next)
        (subst (λ x. Added x (import_legacy_jobs s now rest next)) h (later next))

  import-Added :
      (rows : List OldJob) (db : Db)
      → Added (length db.jobs.keys) (import_legacy_jobs s now rows db)
  unfolding import_legacy_jobs
  import-Added [] db = omega arith
  import-Added (old ∷ rest) db =
      Added-then (length db.jobs.keys) rest (import_job s now old db) (import_job-AddedOne old db)
        (λ next. import-Added rest next)

All-conflict :
    (rows : List OldJob) (db : Db)
    → All (λ o. Present o db) rows
    → All (λ o. has_conflict o db ≡ true) rows
All-conflict [] db all = tt
All-conflict (o ∷ rows) db all = (all.0.conflict, All-conflict rows db all.1)

Added-ok :
    (before n : ℕ) (r : Result (ℕ × Db)) (db : Db)
    → r ≡ ok (n, db)
    → Added before r
    → length db.jobs.keys ≡ before + n
Added-ok before n r db e h = rw e at h

-- What an import that succeeded has done.
pub record Imported (s : Settings) (now n : ℕ) (rows : List OldJob) (db new : Db) : Type 0 where
  pub kept : (k : ℕ) (j : Job) → db.jobs.row k ≡ some j → new.jobs.row k ≡ some j
  pub origin :
      (k : ℕ) (j : Job) → new.jobs.row k ≡ some j → (db.jobs.row k ≡ some j) ⊎ IsFrom s now rows j
  pub taken : All (λ o. has_conflict o new ≡ true) rows
  pub added : length new.jobs.keys ≡ length db.jobs.keys + n
  pub again : (other : Settings) (later : ℕ) → import_legacy_jobs other later rows new ≡ ok (0, new)
  pub consistent : Consistent db → Consistent new

OnOk_ok :
    {A : Type 0} (P : Db → Type 0) (r : Result (A × Db)) (a : A) (db : Db)
    → r ≡ ok (a, db)
    → OnOk P r
    → P db
OnOk_ok P r a db e h = rw e at h

-- An import that succeeded has inserted as many jobs as it counts, each the job of an older row and
-- none of them running; every older row has its id or its key in the tables. A job that was there
-- before has its row as it was, and consistent tables stay consistent. The same import on the tables
-- that it leaves counts no row and changes nothing, with any settings.
pub import_legacy_jobs-Imported :
    (s : Settings) (now n : ℕ) (rows : List OldJob) (db new : Db)
    → import_legacy_jobs s now rows db ≡ ok (n, new)
    → Imported s now n rows db new
import_legacy_jobs-Imported s now n rows db new e =
    let r = import_legacy_jobs s now rows db in
    let present =
      OnOk_ok (λ d. All (λ o. Present o d) rows) r n new e (All-Present s now rows db) in
    record {
      kept = λ k j h.
          OnOk_ok (λ d. d.jobs.row k ≡ some j) r n new e
            (OnOk-import s now (λ d. d.jobs.row k ≡ some j) (known_row-Kept s now k j) rows db h);
      origin = OnOk_ok (Origin s now rows db) r n new e (import-Origin s now rows db);
      taken = All-conflict rows new present;
      added = Added-ok (length db.jobs.keys) n r new e (import-Added s now rows db);
      again = λ other later. import_nothing other later rows new present;
      consistent = λ v.
          OnOk_ok Consistent r n new e
            (OnOk-import s now Consistent (import_job-Consistent s now) rows db v);
    }
