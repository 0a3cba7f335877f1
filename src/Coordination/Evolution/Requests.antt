-- ===== src/Coordination/Evolution/Requests.antt =====
-- submit_job, resubmit_job, request_cancel and observe let the rows evolve.
use repomesh.Prelude.{ℕ, ◌≡◌, refl, false, Option, arith, Bool-cases, Option-cases, inl, inr}
use repomesh.Prelude.Int.{ℤ}
use repomesh.Table.{put, find_where, id_eq}
use repomesh.Coordination.Schema.{
  Db, Job, Mode, Watch, Settings, Result, ok, err, after, is_terminal,
}
use repomesh.Coordination.Jobs.{
  insert_job, has_key, same_request, ensure_execution, requested_job, child_job, valid_request,
  submit_job, is_child_of, track_successor, successor, resubmit_job, flag_cancel, request_cancel,
}
use repomesh.Coordination.Watches.{
  is_ready, watch_job, submit_watch, observed, observe_enabled, observe,
}
use repomesh.Coordination.Evolution.{Evolution, Evolves, Evolves-refl, put-Evolves, insert-Evolves}

insert_job-Evolves :
    (db old : Db) (j : Job)
    → Evolves db.jobs old.jobs
    → Evolves db.jobs (after old (insert_job j db)).jobs
unfolding insert_job
insert_job-Evolves db old j v = elim (Option-cases (db.jobs.row j.id)) [
  | inl new ↦ elim (Option-cases (db.executions.row j.repository_id)) [
    | inl homeless ↦ rw (new, homeless, insert_job) v
    | inr (e, home) ↦ rw (new, home, insert_job) (insert-Evolves db.jobs j.id j new)
  ]
  | inr (other, there) ↦ rw (there, insert_job) v
]

pub submit_job-Evolves :
    (s : Settings) (now fresh repository : ℕ) (mode : Mode) (key : Option ℕ) (priority : ℤ)
    (db : Db)
    → Evolves db.jobs (after db (submit_job s now fresh repository mode key priority db)).jobs
unfolding submit_job
submit_job-Evolves s now fresh repository mode key priority db =
    elim (Bool-cases (valid_request mode key)) [
      | inr bad ↦ rw bad (Evolves-refl db.jobs)
      | inl good ↦ rw good (elim (Option-cases (find_where (has_key key) db.jobs)) [
        | inl new ↦
            rw (new, submit_job)
              (insert_job-Evolves (ensure_execution repository db) db
                (requested_job s now fresh repository mode key priority) (Evolves-refl db.jobs))
        | inr (job, used) ↦
            rw (used, submit_job)
              (elim (Bool-cases (same_request repository mode priority job)) [
                | inl same ↦ rw same (Evolves-refl db.jobs)
                | inr other ↦ rw other (Evolves-refl db.jobs)
              ])
      ])
    ]

track_successor-Evolves :
    (old : ℕ) (db : Db) (r : Result (Job × Db))
    → Evolves db.jobs (after db r).jobs
    → Evolves db.jobs (after db (track_successor old r)).jobs
unfolding track_successor
track_successor-Evolves old db (ok (job, new)) v = v
track_successor-Evolves old db (err e) v = v

successor-Evolves :
    (s : Settings) (now fresh : ℕ) (old : Job) (db : Db)
    → Evolves db.jobs (after db (successor s now fresh old db)).jobs
unfolding successor
successor-Evolves s now fresh old db =
    elim (Option-cases (find_where (is_child_of old.id) db.jobs)) [
      | inl new ↦
          rw (new, successor)
            (insert_job-Evolves db db (child_job s now fresh old) (Evolves-refl db.jobs))
      | inr (job, there) ↦ rw (there, successor) (Evolves-refl db.jobs)
    ]

pub resubmit_job-Evolves :
    (s : Settings) (now fresh id : ℕ) (db : Db)
    → Evolves db.jobs (after db (resubmit_job s now fresh id db)).jobs
unfolding resubmit_job
resubmit_job-Evolves s now fresh id db = elim (Option-cases (db.jobs.row id)) [
  | inl gone ↦ rw (gone, resubmit_job) (Evolves-refl db.jobs)
  | inr (old, there) ↦
      rw (there, resubmit_job)
        (elim (Bool-cases (is_terminal old.status)) [
          | inl ended ↦ rw ended (
              track_successor-Evolves id db (successor s now fresh old db)
                (successor-Evolves s now fresh old db))
          | inr unfinished ↦ rw unfinished (Evolves-refl db.jobs)
        ])
]

flag_cancel-Evolution :
    (now : ℕ) (j : Job) → is_terminal j.status ≡ false → Evolution j (flag_cancel now j)
unfolding flag_cancel
flag_cancel-Evolution now j live = record {
  same_id = refl;
  same_home = refl;
  same_key = refl;
  same_parent = refl;
  same_budget = refl;
  later = omega arith;
  tried = omega arith;
  frozen = λ h. absurd (ground arith);
}

pub request_cancel-Evolves :
    (now id : ℕ) (db : Db) → Evolves db.jobs (after db (request_cancel now id db)).jobs
unfolding request_cancel
request_cancel-Evolves now id db = elim (Option-cases (db.jobs.row id)) [
  | inl gone ↦ rw (gone, request_cancel) (Evolves-refl db.jobs)
  | inr (j, there) ↦
      rw (there, request_cancel)
        (elim (Bool-cases (is_terminal j.status)) [
          | inl ended ↦ rw ended (Evolves-refl db.jobs)
          | inr live ↦ rw live (put-Evolves db.jobs id j _ there (flag_cancel-Evolution now j live))
        ])
]

submit_watch-Evolves :
    (repository fingerprint : ℕ) (w : Watch) (db : Db) (r : Result (Job × Db))
    → Evolves db.jobs (after db r).jobs
    → Evolves db.jobs (after db (submit_watch repository fingerprint w r)).jobs
unfolding submit_watch
submit_watch-Evolves repository fingerprint w db (ok (job, new)) v = v
submit_watch-Evolves repository fingerprint w db (err e) v = v

observe_enabled-Evolves :
    (s : Settings) (now fresh repository fingerprint : ℕ) (w : Watch) (db : Db)
    → Evolves db.jobs (after db (observe_enabled s now fresh repository fingerprint w db)).jobs
unfolding observe_enabled
observe_enabled-Evolves s now fresh repository fingerprint w db =
    elim (Bool-cases (is_ready s now repository db w)) [
      | inr later ↦ rw (later, observe_enabled) (Evolves-refl db.jobs)
      | inl due ↦
          rw (due, observe_enabled)
            (submit_watch-Evolves repository fingerprint w db
              (insert_job (watch_job s now fresh repository) noted)
              (insert_job-Evolves noted db (watch_job s now fresh repository)
                (Evolves-refl db.jobs)))
    ]
  where
    noted : Db
    noted = record db { watches = put repository w db.watches }

pub observe-Evolves :
    (s : Settings) (now fresh repository fingerprint : ℕ) (indexed : Option ℕ) (db : Db)
    → Evolves db.jobs (after db (observe s now fresh repository fingerprint indexed db)).jobs
unfolding observe
observe-Evolves s now fresh repository fingerprint indexed db =
    elim (Option-cases (db.watches.row repository)) [
      | inl gone ↦ rw (gone, observe) (Evolves-refl db.jobs)
      | inr (w, there) ↦
          rw (there, observe)
            (elim (Bool-cases w.enabled) [
              | inr off ↦ rw off (Evolves-refl db.jobs)
              | inl on ↦ simp on (
                  observe_enabled-Evolves s now fresh repository fingerprint
                    (observed now repository fingerprint indexed db w) db)
            ])
    ]
