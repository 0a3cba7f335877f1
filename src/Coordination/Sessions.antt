-- ===== src/Coordination/Sessions.antt =====
-- A registration of a worker's name shuts the name's earlier session out.
use repomesh.Prelude.{
  ℕ, ◌≡◌, ◌≢◌, ◌||◌, refl, true, false, Option, arith, Bool-cases, Option-cases, inl, inr,
}
use repomesh.Table.{put, insert, id_eq}
use repomesh.Coordination.Schema.{Db, Message, Settings, ok, err, lease_lost, is_stopped}
use repomesh.Coordination.Workers.{is_offline, register_worker, in_session, heartbeat_worker}
use repomesh.Coordination.Claims.{Locks, has_session, claim_job}

-- The worker's row carries the session.
register_worker_session :
    (s : Settings) (now session worker hostname pid version given : ℕ) (db new : Db)
    → register_worker s now session worker hostname pid version db ≡ ok (given, new)
    → has_session session (new.workers.row worker) ≡ true
unfolding register_worker insert put
register_worker_session s now session worker hostname pid version given db new e =
    elim (Option-cases (db.workers.row worker)) [
      | inl gone ↦ ground arith
      | inr (w, known) ↦ elim (Bool-cases (is_stopped w.worker_status || is_offline s now w)) [
        | inr live ↦ absurd (ground arith)
        | inl dead ↦ ground arith
      ]
    ]

-- A worker of this name and session can neither report itself nor claim.
pub record ShutOut (worker old : ℕ) (db : Db) : Type 0 where
  pub beats_not :
      (now : ℕ) (current : Option ℕ) → heartbeat_worker now worker old current db ≡ err lease_lost
  pub claims_not :
      (s : Settings) (exhausted : Message) (now : ℕ) (locks : Locks)
      → claim_job s exhausted now locks worker old db ≡ err lease_lost

-- Once a registration has given a worker's name a new session, the heartbeats and the claims of
-- any other session of that name are refused.
pub register_worker-ShutOut :
    (s : Settings) (now session worker hostname pid version given old : ℕ) (db new : Db)
    → register_worker s now session worker hostname pid version db ≡ ok (given, new)
    → old ≢ session
    → ShutOut worker old new
unfolding heartbeat_worker claim_job in_session
register_worker-ShutOut s now session worker hostname pid version given old db new e differs =
    let r : has_session session (new.workers.row worker) ≡ true =
      register_worker_session s now session worker hostname pid version given db new e in
    elim (Option-cases (new.workers.row worker)) [
      | inl gone ↦ absurd (ground arith)
      | inr (w, there) ↦
          let off : in_session old w ≡ false = ground arith in
          record {
            beats_not = λ t current. rw (there, heartbeat_worker) (rw off refl);
            claims_not = λ s' exhausted t locks. rw (there, claim_job) (rw off refl);
          }
    ]
