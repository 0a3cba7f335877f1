-- ===== src/Coordination/Invariant/Moves.antt =====
-- The four ways in which a transaction changes a job keep the invariant.
use repomesh.Prelude.{
  ℕ, ◌≤◌, ◌≡◌, true, false, some, arith, if◌then◌else◌, Bool-cases, inl, inr, ◌==◌, ◌∙◌,
}
use repomesh.Table.{Table, put, id_eq, pair_eq}
use repomesh.Coordination.Schema.{Job, Execution, Attempt, is_running}
use repomesh.Coordination.Jobs.{no_execution}
use repomesh.Coordination.Claims.{is_free_for}
use repomesh.Coordination.Invariant.{JobOk, Inv, Reached, Holds, HasHome, reservation}

-- A new version of a row, in the same repository, at no earlier generation.
pub record Version (j j' : Job) : Type 0 where
  pub same_id : j'.id ≡ j.id
  pub same_home : j'.repository_id ≡ j.repository_id
  pub later : j.lease_generation ≤ j'.lease_generation
  pub fine : JobOk j'

module _ {jobs : Table ℕ Job} {executions : Table ℕ Execution} {attempts : Table (ℕ × ℕ) Attempt}
    (v : Inv jobs executions attempts) (k : ℕ) (j j' : Job) (found : jobs.row k ≡ some j)
    (next : Version j j') where
  put-keyed : (i : ℕ) (x : Job) → (put k j' jobs).row i ≡ some x → x.id ≡ i
  unfolding put
  put-keyed i x h = ground (arith, v.keyed i x, v.keyed k j found, next.same_id)

  put_sound : (i : ℕ) (x : Job) → (put k j' jobs).row i ≡ some x → JobOk x
  unfolding put
  put_sound i x h = ground (arith, v.sound i x, next.fine)

  put-housed :
      (i : ℕ) (x : Job) → (put k j' jobs).row i ≡ some x → HasHome executions x.repository_id
  unfolding put
  put-housed i x h = ground (arith, v.housed i x, v.housed k j found, next.same_home)

  put-Reached : (i g : ℕ) → Reached jobs i g → Reached (put k j' jobs) i g
  unfolding put
  put-Reached i g r = elim (Bool-cases (i == k)) [
    | inl here ↦ record {
      job = j';
      found = ground arith;
      reached = ground (arith, r.found, r.reached, next.later);
    }
    | inr there ↦ record { job = r.job; found = ground (arith, r.found); reached = r.reached }
  ]

  put-Holds : is_running j'.status ≡ true → (r i : ℕ) → Holds jobs r i → Holds (put k j' jobs) r i
  unfolding put
  put-Holds active r i h = elim (Bool-cases (i == k)) [
    | inl here ↦ record {
      job = j';
      found = ground arith;
      is_active = active;
      at_home = ground (arith, h.found, h.at_home, next.same_home);
    }
    | inr there ↦ record {
      job = h.job;
      found = ground (arith, h.found);
      is_active = h.is_active;
      at_home = h.at_home;
    }
  ]

  put-Holds_other : (r i : ℕ) → (i == k) ≡ false → Holds jobs r i → Holds (put k j' jobs) r i
  unfolding put
  put-Holds_other r i there h = record {
    job = h.job;
    found = ground (arith, h.found);
    is_active = h.is_active;
    at_home = h.at_home;
  }

  not-Holds : is_running j.status ≡ false → (r i : ℕ) → Holds jobs r i → (i == k) ≡ false
  not-Holds still r i h = ground (arith, h.found, h.is_active)

  -- A row that stays running, or stays not running.
  pub touch-Inv :
      is_running j'.status ≡ is_running j.status → Inv (put k j' jobs) executions attempts
  unfolding put
  touch-Inv same = record {
    keyed = put-keyed;
    sound = put_sound;
    housed = put-housed;
    reserved = λ i x h r. ground (arith, v.reserved i x, v.reserved k j found, next.same_home);
    holder = λ r i h. elim (Bool-cases (is_running j.status)) [
      | inl active ↦ put-Holds (same ∙ active) r i (v.holder r i h)
      | inr still ↦ put-Holds_other r i (not-Holds still r i (v.holder r i h)) (v.holder r i h)
    ];
    fenced = λ i g a h. put-Reached i g (v.fenced i g a h);
  }

  -- The reservation of the row's repository changes, and no other.
  module _ (executions' : Table ℕ Execution) (e : Execution)
      (only : (r : ℕ)
        → executions'.row r ≡ (if r == j.repository_id then some e else executions.row r)) where
    housed-only :
        (i : ℕ) (x : Job) → (put k j' jobs).row i ≡ some x → HasHome executions' x.repository_id
    housed-only i x h = elim (Bool-cases (x.repository_id == j.repository_id)) [
      | inl here ↦ record { execution = e; found = ground (arith, only x.repository_id) }
      | inr there ↦ record {
        execution = (put-housed i x h).execution;
        found = ground (arith, only x.repository_id, (put-housed i x h).found);
      }
    ]

    elsewhere : (r i : ℕ) → (r == j.repository_id) ≡ false → Holds jobs r i → (i == k) ≡ false
    elsewhere r i far h = ground (arith, h.found, h.at_home)

    -- A row ends, and its repository is reserved no more.
    pub release-Inv :
        e ≡ no_execution
        → is_free_for (executions.row j.repository_id) k ≡ true
        → is_running j'.status ≡ false
        → Inv (put k j' jobs) executions' attempts
    unfolding put
    release-Inv freed free ends = record {
      keyed = put-keyed;
      sound = put_sound;
      housed = housed-only;
      reserved = λ i x h r.
          ground
            (arith, only x.repository_id, v.reserved i x, v.reserved k j found, next.same_home);
      holder = λ r i h.
          let far : (r == j.repository_id) ≡ false = ground (arith, only r) in
          let old : Holds jobs r i = v.holder r i (ground (arith, only r)) in
          put-Holds_other r i (elsewhere r i far old) old;
      fenced = λ i g a h. put-Reached i g (v.fenced i g a h);
    }

    -- A row takes its repository, which no other row reserves.
    pub acquire-Inv :
        e ≡ reservation k
        → is_free_for (executions.row j.repository_id) k ≡ true
        → is_running j'.status ≡ true
        → Inv (put k j' jobs) executions' attempts
    unfolding put
    acquire-Inv taken free starts = record {
      keyed = put-keyed;
      sound = put_sound;
      housed = housed-only;
      reserved = λ i x h r.
          ground
            (arith, only x.repository_id, v.reserved i x, v.reserved k j found, next.same_home);
      holder = λ r i h. elim (Bool-cases (r == j.repository_id)) [
        | inl here ↦ record {
          job = j';
          found = ground (arith, only r);
          is_active = starts;
          at_home = ground (arith, next.same_home);
        }
        | inr there ↦
            let old : Holds jobs r i = v.holder r i (ground (arith, only r)) in
            put-Holds_other r i (elsewhere r i there old) old
      ];
      fenced = λ i g a h. put-Reached i g (v.fenced i g a h);
    }
