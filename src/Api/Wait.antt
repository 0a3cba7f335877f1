-- ===== src/Api/Wait.antt =====
-- jobs.py: JobManager. Its submit and cancel are submit_job and request_cancel; wait reads the job
-- and the clock again and again.
use repomesh.Prelude.{
  ℕ, ◌≤◌, ◌≡◌, refl, subst, Bool, true, false, ◌||◌, ◌⊎◌, inl, inr, none, some, List, [], ◌∷◌, leb,
  arith, All, Occurs, Bool-cases, if◌then◌else◌,
}
use repomesh.Coordination.Schema.{Db, Job, is_terminal}
use repomesh.Coordination.Jobs.{get_job}

-- The tables in a round of the loop, and the clock that it then reads.
pub record Reading : Type 0 where
  pub db : Db
  pub now : ℕ

-- `sleeps` where the readings end before the loop does.
pub data Waited : Type 0 where
  returned : Job → Waited
  not_found sleeps : Waited

-- The deadline is the clock at the start and the timeout.
unfoldable pub wait : ℕ → ℕ → List Reading → Waited
unfolding get_job
wait deadline id [] = sleeps
wait deadline id (r ∷ rs) =
    let rest = wait deadline id rs in
    elim (get_job id r.db) [
      | none ↦ not_found
      | some job ↦ if is_terminal job.status || leb deadline r.now then returned job else rest
    ]

pub record HasJob (id : ℕ) (r : Reading) : Type 0 where
  pub job : Job
  pub found : r.db.jobs.row id ≡ some job

pub record Returns (deadline id : ℕ) (readings : List Reading) (waited : Waited) : Type 0 where
  pub reading : Reading
  pub occurs : Occurs reading readings
  pub job : Job
  pub result : waited ≡ returned job
  pub found : reading.db.jobs.row id ≡ some job
  pub why : (is_terminal job.status ≡ true) ⊎ (deadline ≤ reading.now)

ended_or_late :
    (b : Bool) (deadline now : ℕ) → (b || leb deadline now) ≡ true → (b ≡ true) ⊎ (deadline ≤ now)
ended_or_late true deadline now h = inl refl
ended_or_late false deadline now h = inr (ground arith)

not_yet : (b : Bool) (deadline now : ℕ) → (b || leb deadline now) ≡ false → ¬ (deadline ≤ now)
not_yet true deadline now h = absurd (ground arith)
not_yet false deadline now h = λ k. ground arith

later-Returns :
    (deadline id : ℕ) (r : Reading) (rs : List Reading) (w : Waited)
    → Returns deadline id rs w
    → Returns deadline id (r ∷ rs) w
later-Returns deadline id r rs w h = record {
  reading = h.reading;
  occurs = inr h.occurs;
  job = h.job;
  result = h.result;
  found = h.found;
  why = h.why;
}

wait_found :
    (deadline id : ℕ) (r : Reading) (rs : List Reading) (job : Job)
    → r.db.jobs.row id ≡ some job
    → wait deadline id (r ∷ rs)
      ≡ (if is_terminal job.status || leb deadline r.now then returned job else wait deadline id rs)
unfolding wait
wait_found deadline id r rs job h = rw (h, wait) refl

-- A wait for a job that stays in the tables returns once the clock reaches its deadline: what it
-- returns is the job's row at one of its readings, where the job has ended or the deadline is over.
pub wait-Returns :
    (deadline id : ℕ) (readings : List Reading) (last : Reading)
    → All (HasJob id) readings
    → Occurs last readings
    → deadline ≤ last.now
    → Returns deadline id readings (wait deadline id readings)
wait-Returns deadline id [] last all there late = absurd there
wait-Returns deadline id (r ∷ rs) last all there late =
    elim (Bool-cases (is_terminal all.0.job.status || leb deadline r.now)) [
      | inl ends ↦
          rw (wait_found deadline id r rs all.0.job all.0.found, ends)
            (record {
              reading = r;
              occurs = inl refl;
              job = all.0.job;
              result = refl;
              found = all.0.found;
              why = ended_or_late (is_terminal all.0.job.status) deadline r.now ends;
            })
      | inr waits ↦
          rw (wait_found deadline id r rs all.0.job all.0.found, waits)
            (elim there [
              | inl here ↦
                  let late_here : deadline ≤ r.now = subst (λ x. deadline ≤ x.now) here late in
                  absurd (not_yet (is_terminal all.0.job.status) deadline r.now waits late_here)
              | inr later ↦
                  later-Returns deadline id r rs (wait deadline id rs)
                    (wait-Returns deadline id rs last all.1 later late)
            ])
    ]
