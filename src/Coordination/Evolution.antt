-- ===== src/Coordination/Evolution.antt =====
-- How a job's row may change from one transaction to the next.
pub mod Held
pub mod Requests
pub mod Claiming
pub mod Registry
use repomesh.Prelude.{
  ℕ, ◌≤◌, ◌≡◌, refl, ◌∙◌, Option, none, some, true, arith, Bool-cases, inl, inr, ◌==◌,
}
use repomesh.Table.{Table, put, insert, id_eq}
use repomesh.Coordination.Schema.{Db, Job, Result, ok, err, after, is_terminal}

-- Identity, repository, keys and lineage stay, the generation and the attempts only grow, and the
-- row of a finished job does not change at all.
pub record Evolution (j j' : Job) : Type 0 where
  pub same_id : j'.id ≡ j.id
  pub same_home : j'.repository_id ≡ j.repository_id
  pub same_key : j'.idempotency_key ≡ j.idempotency_key
  pub same_parent : j'.parent_job_id ≡ j.parent_job_id
  pub same_budget : j'.max_attempts ≡ j.max_attempts
  pub later : j.lease_generation ≤ j'.lease_generation
  pub tried : j.attempt ≤ j'.attempt
  pub frozen : is_terminal j.status ≡ true → j' ≡ j

pub Evolution-refl : (j : Job) → Evolution j j
Evolution-refl j = record {
  same_id = refl;
  same_home = refl;
  same_key = refl;
  same_parent = refl;
  same_budget = refl;
  later = omega arith;
  tried = omega arith;
  frozen = λ h. refl;
}

pub Evolution-trans : {a b c : Job} → Evolution a b → Evolution b c → Evolution a c
Evolution-trans {a} {b} {c} e f = record {
  same_id = f.same_id ∙ e.same_id;
  same_home = f.same_home ∙ e.same_home;
  same_key = f.same_key ∙ e.same_key;
  same_parent = f.same_parent ∙ e.same_parent;
  same_budget = f.same_budget ∙ e.same_budget;
  later = omega (arith, e.later, f.later);
  tried = omega (arith, e.tried, f.tried);
  frozen = λ h. let p : b ≡ a = e.frozen h in f.frozen (rw p h) ∙ p;
}

-- The row at `k` is still there, and comes from `j`.
pub record Remains (jobs : Table ℕ Job) (k : ℕ) (j : Job) : Type 0 where
  pub now : Job
  pub found : jobs.row k ≡ some now
  pub evolution : Evolution j now

unfoldable pub Evolves : Table ℕ Job → Table ℕ Job → Type 0
Evolves old new = (k : ℕ) (j : Job) → old.row k ≡ some j → Remains new k j

pub Evolves-refl : (t : Table ℕ Job) → Evolves t t
unfolding Evolves
Evolves-refl t k j h = record { now = j; found = h; evolution = Evolution-refl j }

pub Evolves-trans : (a b c : Table ℕ Job) → Evolves a b → Evolves b c → Evolves a c
unfolding Evolves
Evolves-trans a b c e f k j h =
    let r : Remains b k j = e k j h in
    let q : Remains c k r.now = f k r.now r.found in
    record { now = q.now; found = q.found; evolution = Evolution-trans r.evolution q.evolution }

pub put-Evolves :
    (t : Table ℕ Job) (k : ℕ) (j j' : Job)
    → t.row k ≡ some j
    → Evolution j j'
    → Evolves t (put k j' t)
unfolding Evolves put
put-Evolves t k j j' found e i x h = elim (Bool-cases (i == k)) [
  | inl here ↦
      let same : x ≡ j = ground arith in
      record { now = j'; found = ground arith; evolution = rw same e }
  | inr there ↦ record { now = x; found = ground arith; evolution = Evolution-refl x }
]

pub insert-Evolves : (t : Table ℕ Job) (k : ℕ) (j : Job) → t.row k ≡ none → Evolves t (insert k j t)
unfolding Evolves insert
insert-Evolves t k j new i x h = record {
  now = x;
  found = ground arith;
  evolution = Evolution-refl x;
}

-- An outcome against the tables that its transaction began with, and any that it stands for.
pub after-Evolves {ℓ} :
    {A : Type ℓ} (db old : Db) (r : Result (A × Db))
    → Evolves old.jobs db.jobs
    → Evolves db.jobs (after db r).jobs
    → Evolves old.jobs (after old r).jobs
after-Evolves db old (ok (a, new)) v w = Evolves-trans old.jobs db.jobs new.jobs v w
after-Evolves db old (err e) v w = Evolves-refl old.jobs
