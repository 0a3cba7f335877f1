-- ===== src/Coordination/Invariant/Inserts.antt =====
-- New rows, and writes to `job_attempts`, keep the invariant.
use repomesh.Prelude.{ℕ, ◌≡◌, ◌==◌, Bool, false, none, arith, Bool-cases, Option-cases, inl, inr}
use repomesh.Table.{Table, insert, ensure, update_at, id_eq, pair_eq}
use repomesh.Coordination.Schema.{Job, Execution, Attempt, is_running}
use repomesh.Coordination.Jobs.{no_execution}
use repomesh.Coordination.Invariant.{JobOk, Inv, Reached, Holds, HasHome}

module _ {executions : Table ℕ Execution} where
  ensure-HasHome : (r i : ℕ) → HasHome executions i → HasHome (ensure r no_execution executions) i
  unfolding ensure
  ensure-HasHome r i h = elim (Option-cases (executions.row r)) [
    | inl gone ↦ record { execution = h.execution; found = ground (arith, h.found) }
    | inr (e, there) ↦ record { execution = h.execution; found = ground (arith, h.found) }
  ]

pub ensured-HasHome :
    (executions : Table ℕ Execution) (r : ℕ) → HasHome (ensure r no_execution executions) r
unfolding ensure
ensured-HasHome executions r = elim (Option-cases (executions.row r)) [
  | inl gone ↦ record { execution = no_execution; found = ground arith }
  | inr (e, there) ↦ record { execution = e; found = ground arith }
]

module _ {jobs : Table ℕ Job} {executions : Table ℕ Execution} {attempts : Table (ℕ × ℕ) Attempt}
    (v : Inv jobs executions attempts) where
  pub update_attempt-Inv :
      (key : ℕ × ℕ) (p : Attempt → Bool) (f : Attempt → Attempt)
      → Inv jobs executions (update_at key p f attempts)
  unfolding update_at
  update_attempt-Inv key p f = record {
    keyed = v.keyed;
    sound = v.sound;
    housed = v.housed;
    reserved = v.reserved;
    holder = v.holder;
    fenced = λ k g a h. elim (Option-cases (attempts.row (k, g))) [
      | inl gone ↦ absurd (ground arith)
      | inr (old, there) ↦ v.fenced k g old there
    ];
  }

  pub insert_attempt-Inv :
      (k g : ℕ) (a : Attempt) → Reached jobs k g → Inv jobs executions (insert (k, g) a attempts)
  unfolding insert
  insert_attempt-Inv k g a r = record {
    keyed = v.keyed;
    sound = v.sound;
    housed = v.housed;
    reserved = v.reserved;
    holder = v.holder;
    fenced = λ i n b h. elim (Bool-cases (i == k)) [
      | inl same ↦ elim (Bool-cases (n == g)) [
        | inl here ↦ record {
          job = r.job;
          found = ground (arith, r.found);
          reached = ground (arith, r.reached);
        }
        | inr off ↦ v.fenced i n b (ground arith)
      ]
      | inr other ↦ v.fenced i n b (ground arith)
    ];
  }

  pub ensure-Inv : (r : ℕ) → Inv jobs (ensure r no_execution executions) attempts
  unfolding ensure
  ensure-Inv r = record {
    keyed = v.keyed;
    sound = v.sound;
    fenced = v.fenced;
    housed = λ k j h. ensure-HasHome r j.repository_id (v.housed k j h);
    reserved = λ k j h active. ground (arith, v.reserved k j h active);
    holder = λ i k h. v.holder i k (ground arith);
  }

  pub insert-Inv :
      (j : Job)
      → jobs.row j.id ≡ none
      → JobOk j
      → HasHome executions j.repository_id
      → is_running j.status ≡ false
      → Inv (insert j.id j jobs) executions attempts
  unfolding insert
  insert-Inv j new fine home still = record {
    keyed = λ k x h. ground (arith, v.keyed k x);
    sound = λ k x h. ground (arith, v.sound k x, fine);
    housed = λ k x h. ground (arith, v.housed k x, home);
    reserved = λ k x h active. ground (arith, v.reserved k x);
    holder = λ r k h.
        let old : Holds jobs r k = v.holder r k h in
        record {
          job = old.job;
          found = ground (arith, old.found);
          is_active = old.is_active;
          at_home = old.at_home;
        };
    fenced = λ k g a h.
        let old : Reached jobs k g = v.fenced k g a h in
        record { job = old.job; found = ground (arith, old.found); reached = old.reached };
  }
