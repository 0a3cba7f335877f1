-- ===== src/Coordination/Evolution/Registry.antt =====
-- The registry of workers and the watches' own columns do not concern the jobs.
use repomesh.Prelude.{ℕ, ◌||◌, Bool, Option, Bool-cases, Option-cases, inl, inr}
use repomesh.Coordination.Schema.{Db, Message, Settings, after, is_stopped}
use repomesh.Coordination.Workers.{
  is_offline, register_worker, in_session, heartbeat_worker, stop_worker,
}
use repomesh.Coordination.Watches.{ensure_watch, write_enabled, record_error}
use repomesh.Coordination.Invariant.{Consistent}
use repomesh.Coordination.Evolution.{Evolves, Evolves-refl}

-- Another state with the same jobs, reservations and attempts.
pub record SameWork (db new : Db) : Type 0 where
  pub keeps : Consistent db → Consistent new
  pub evolves : Evolves db.jobs new.jobs

SameWork-refl : (db : Db) → SameWork db db
SameWork-refl db = record { keeps = λ v. v; evolves = Evolves-refl db.jobs }

pub register_worker-SameWork :
    (s : Settings) (now session worker hostname pid version : ℕ) (db : Db)
    → SameWork db (after db (register_worker s now session worker hostname pid version db))
unfolding register_worker
register_worker-SameWork s now session worker hostname pid version db =
    elim (Option-cases (db.workers.row worker)) [
      | inl gone ↦
          rw (gone, register_worker) (record { keeps = λ v. v; evolves = Evolves-refl db.jobs })
      | inr (w, there) ↦
          rw (there, register_worker)
            (elim (Bool-cases (is_stopped w.worker_status || is_offline s now w)) [
              | inl dead ↦ simp dead (record { keeps = λ v. v; evolves = Evolves-refl db.jobs })
              | inr live ↦ simp live (SameWork-refl db)
            ])
    ]

pub heartbeat_worker-SameWork :
    (now worker session : ℕ) (current : Option ℕ) (db : Db)
    → SameWork db (after db (heartbeat_worker now worker session current db))
unfolding heartbeat_worker
heartbeat_worker-SameWork now worker session current db =
    elim (Option-cases (db.workers.row worker)) [
      | inl gone ↦ rw (gone, heartbeat_worker) (SameWork-refl db)
      | inr (w, there) ↦
          rw (there, heartbeat_worker)
            (elim (Bool-cases (in_session session w)) [
              | inl live ↦ simp live (record { keeps = λ v. v; evolves = Evolves-refl db.jobs })
              | inr lost ↦ simp lost (SameWork-refl db)
            ])
    ]

pub stop_worker-SameWork :
    (now worker session : ℕ) (db : Db) → SameWork db (after db (stop_worker now worker session db))
unfolding stop_worker
stop_worker-SameWork now worker session db = record {
  keeps = λ v. v;
  evolves = Evolves-refl db.jobs;
}

pub ensure_watch-Evolves :
    (s : Settings) (repository : ℕ) (enabled : Option Bool) (db : Db)
    → Evolves db.jobs (ensure_watch s repository enabled db).jobs
unfolding ensure_watch
ensure_watch-Evolves s repository enabled db = Evolves-refl db.jobs

pub write_enabled-Evolves :
    (now repository : ℕ) (enabled : Bool) (db : Db)
    → Evolves db.jobs (write_enabled now repository enabled db).jobs
unfolding write_enabled
write_enabled-Evolves now repository enabled db = Evolves-refl db.jobs

pub record_error-Evolves :
    (now repository : ℕ) (message : Message) (db : Db)
    → Evolves db.jobs (record_error now repository message db).jobs
unfolding record_error
record_error-Evolves now repository message db = Evolves-refl db.jobs
