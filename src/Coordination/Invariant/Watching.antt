-- ===== src/Coordination/Invariant/Watching.antt =====
-- The methods of WatchRepository keep the invariant.
use repomesh.Prelude.{ℕ, refl, Bool, Option, arith, Bool-cases, Option-cases, inl, inr}
use repomesh.Table.{put, id_eq}
use repomesh.Coordination.Schema.{Db, Job, Watch, Message, Settings, Result, ok, err, after}
use repomesh.Coordination.Jobs.{insert_job}
use repomesh.Coordination.Watches.{
  ensure_watch, write_enabled, record_error, is_ready, watch_job, submit_watch, observed,
  observe_enabled, observe,
}
use repomesh.Coordination.Invariant.{Consistent}
use repomesh.Coordination.Invariant.Inserts.{ensure-Inv}
use repomesh.Coordination.Invariant.Requests.{insert_job-Consistent}

pub ensure_watch-Consistent :
    (s : Settings) (repository : ℕ) (enabled : Option Bool) (db : Db)
    → Consistent db
    → Consistent (ensure_watch s repository enabled db)
unfolding ensure_watch
ensure_watch-Consistent s repository enabled db v = ensure-Inv v repository

pub write_enabled-Consistent :
    (now repository : ℕ) (enabled : Bool) (db : Db)
    → Consistent db
    → Consistent (write_enabled now repository enabled db)
unfolding write_enabled
write_enabled-Consistent now repository enabled db v = v

pub record_error-Consistent :
    (now repository : ℕ) (message : Message) (db : Db)
    → Consistent db
    → Consistent (record_error now repository message db)
unfolding record_error
record_error-Consistent now repository message db v = v

submit_watch-Consistent :
    (repository fingerprint : ℕ) (w : Watch) (db : Db) (r : Result (Job × Db))
    → Consistent (after db r)
    → Consistent (after db (submit_watch repository fingerprint w r))
unfolding submit_watch
submit_watch-Consistent repository fingerprint w db (ok (job, new)) v = v
submit_watch-Consistent repository fingerprint w db (err e) v = v

pub observe_enabled-Consistent :
    (s : Settings) (now fresh repository fingerprint : ℕ) (w : Watch) (db : Db)
    → Consistent db
    → Consistent (after db (observe_enabled s now fresh repository fingerprint w db))
unfolding observe_enabled
observe_enabled-Consistent s now fresh repository fingerprint w db v =
    elim (Bool-cases (is_ready s now repository db w)) [
      | inr later ↦ rw (later, observe_enabled) v
      | inl due ↦
          rw (due, observe_enabled)
            (submit_watch-Consistent repository fingerprint w db
              (insert_job (watch_job s now fresh repository) (noted w))
              (insert_job-Consistent (noted w) db (watch_job s now fresh repository) v v
                (record { waits = refl; fine = record { lease = refl; budget = omega arith } })))
    ]
  where
    noted : Watch → Db
    noted w = record db { watches = put repository w db.watches }

pub observe-Consistent :
    (s : Settings) (now fresh repository fingerprint : ℕ) (indexed : Option ℕ) (db : Db)
    → Consistent db
    → Consistent (after db (observe s now fresh repository fingerprint indexed db))
unfolding observe
observe-Consistent s now fresh repository fingerprint indexed db v =
    elim (Option-cases (db.watches.row repository)) [
      | inl gone ↦ rw (gone, observe) v
      | inr (w, there) ↦
          rw (there, observe)
            (elim (Bool-cases w.enabled) [
              | inr off ↦ rw off v
              | inl on ↦ simp on (
                  observe_enabled-Consistent s now fresh repository fingerprint
                    (observed now repository fingerprint indexed db w) db v)
            ])
    ]
