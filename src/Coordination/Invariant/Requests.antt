-- ===== src/Coordination/Invariant/Requests.antt =====
-- submit_job, resubmit_job and request_cancel keep the invariant.
use repomesh.Prelude.{ℕ, ◌≡◌, refl, false, Option, arith, Bool-cases, Option-cases, inl, inr}
use repomesh.Prelude.Int.{ℤ}
use repomesh.Table.{find_where, id_eq}
use repomesh.Coordination.Schema.{
  Db, Job, Mode, Settings, Result, ok, err, after, is_running, is_terminal,
}
use repomesh.Coordination.Jobs.{
  insert_job, has_key, same_request, ensure_execution, requested_job, child_job, valid_request,
  submit_job, is_child_of, track_successor, successor, resubmit_job, flag_cancel, request_cancel,
}
use repomesh.Coordination.Invariant.{JobOk, Consistent}
use repomesh.Coordination.Invariant.Moves.{Version, touch-Inv}
use repomesh.Coordination.Invariant.Inserts.{insert-Inv, ensure-Inv}

-- A row with no attempt, waiting and unleased.
pub record Fresh (j : Job) : Type 0 where
  pub waits : is_running j.status ≡ false
  pub fine : JobOk j

pub insert_job-Consistent :
    (db old : Db) (j : Job)
    → Consistent db
    → Consistent old
    → Fresh j
    → Consistent (after old (insert_job j db))
unfolding insert_job
insert_job-Consistent db old j v w f = elim (Option-cases (db.jobs.row j.id)) [
  | inl new ↦ elim (Option-cases (db.executions.row j.repository_id)) [
    | inl homeless ↦ rw (new, homeless, insert_job) w
    | inr (e, home) ↦
        rw (new, home, insert_job)
          (insert-Inv v j new f.fine (record { execution = e; found = home }) f.waits)
  ]
  | inr (other, there) ↦ rw (there, insert_job) w
]

pub submit_job-Consistent :
    (s : Settings) (now fresh repository : ℕ) (mode : Mode) (key : Option ℕ) (priority : ℤ)
    (db : Db)
    → Consistent db
    → Consistent (after db (submit_job s now fresh repository mode key priority db))
unfolding submit_job
submit_job-Consistent s now fresh repository mode key priority db v =
    elim (Bool-cases (valid_request mode key)) [
      | inr bad ↦ rw bad v
      | inl good ↦ rw good (elim (Option-cases (find_where (has_key key) db.jobs)) [
        | inl new ↦
            rw (new, submit_job)
              (insert_job-Consistent (ensure_execution repository db) db
                (requested_job s now fresh repository mode key priority) ensured v
                (record { waits = refl; fine = record { lease = refl; budget = omega arith } }))
        | inr (job, used) ↦
            rw (used, submit_job)
              (elim (Bool-cases (same_request repository mode priority job)) [
                | inl same ↦ rw same ensured
                | inr other ↦ rw other v
              ])
      ])
    ]
  where
    ensured : Consistent (ensure_execution repository db)
    ensured = ensure-Inv v repository

track_successor-Consistent :
    (old : ℕ) (db : Db) (r : Result (Job × Db))
    → Consistent (after db r)
    → Consistent (after db (track_successor old r))
unfolding track_successor
track_successor-Consistent old db (ok (job, new)) v = v
track_successor-Consistent old db (err e) v = v

successor-Consistent :
    (s : Settings) (now fresh : ℕ) (old : Job) (db : Db)
    → Consistent db
    → Consistent (after db (successor s now fresh old db))
unfolding successor
successor-Consistent s now fresh old db v =
    elim (Option-cases (find_where (is_child_of old.id) db.jobs)) [
      | inl new ↦
          rw (new, successor)
            (insert_job-Consistent db db (child_job s now fresh old) v v
              (record { waits = refl; fine = record { lease = refl; budget = omega arith } }))
      | inr (job, there) ↦ rw (there, successor) v
    ]

pub resubmit_job-Consistent :
    (s : Settings) (now fresh id : ℕ) (db : Db)
    → Consistent db
    → Consistent (after db (resubmit_job s now fresh id db))
unfolding resubmit_job
resubmit_job-Consistent s now fresh id db v = elim (Option-cases (db.jobs.row id)) [
  | inl gone ↦ rw (gone, resubmit_job) v
  | inr (old, there) ↦
      rw (there, resubmit_job)
        (elim (Bool-cases (is_terminal old.status)) [
          | inl ended ↦ rw ended (
              track_successor-Consistent id db (successor s now fresh old db)
                (successor-Consistent s now fresh old db v))
          | inr unfinished ↦ rw unfinished v
        ])
]

flag_cancel-Version : (now : ℕ) (j : Job) → JobOk j → Version j (flag_cancel now j)
unfolding flag_cancel
flag_cancel-Version now j fine = record {
  same_id = refl;
  same_home = refl;
  later = omega arith;
  fine = record { lease = ground (arith, fine.lease); budget = fine.budget };
}

flag_cancel_running :
    (now : ℕ) (j : Job) → is_running (flag_cancel now j).status ≡ is_running j.status
unfolding flag_cancel
flag_cancel_running now j = ground arith

pub request_cancel-Consistent :
    (now id : ℕ) (db : Db) → Consistent db → Consistent (after db (request_cancel now id db))
unfolding request_cancel
request_cancel-Consistent now id db v = elim (Option-cases (db.jobs.row id)) [
  | inl gone ↦ rw (gone, request_cancel) v
  | inr (j, there) ↦
      rw (there, request_cancel)
        (elim (Bool-cases (is_terminal j.status)) [
          | inl ended ↦ rw ended v
          | inr live ↦ rw live (
              touch-Inv v id j _ there (flag_cancel-Version now j (v.sound id j there))
                (flag_cancel_running now j))
        ])
]
