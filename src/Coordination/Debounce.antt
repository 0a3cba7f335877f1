-- ===== src/Coordination/Debounce.antt =====
-- What an observation of a watched repository submits.
use repomesh.Prelude.{
  ℕ, ◌≡◌, sym, refl, ◌⊎◌, true, false, Option, none, some, arith, Bool-cases, Option-cases, inl,
  inr, is_some, subst, ◌+◌, leb, ◌==◌, is_id, get_or, not, ◌&&◌,
}
use repomesh.Table.{put, insert, find_where, id_eq}
use repomesh.Table.Finds.{find_where-insert}
use repomesh.Coordination.Schema.{Db, Job, Watch, Settings, Result, ok}
use repomesh.Coordination.Jobs.{insert_job}
use repomesh.Coordination.Watches.{
  note_fingerprint, job_completed, forget_submitted, is_active_in, has_active, is_ready, is_older,
  watch_job, submit_watch, observed, observe_enabled, observe,
}

-- Why a change is due by the watch's row before the observation: its fingerprint was seen before and
-- has stood for the debounce time, there is no debounce time, or the change has been pending for the
-- longest time that a watch waits.
pub data Due (s : Settings) (now fingerprint : ℕ) (before : Watch) : Type 0 where
  stood :
      is_id before.observed_fingerprint fingerprint ≡ true
      → is_older before.stable_since s.watch_debounce now ≡ true
      → Due s now fingerprint before
  at_once : s.watch_debounce ≡ 0 → Due s now fingerprint before
  waited :
      leb (get_or before.pending_since now + s.watch_max_wait) now ≡ true
      → Due s now fingerprint before

-- The fingerprint is not the one submitted last, or the index shows that it was not indexed.
pub data Changed (fingerprint : ℕ) (indexed : Option ℕ) (before : Watch) : Type 0 where
  other :
      is_id before.submitted_fingerprint fingerprint ≡ false → Changed fingerprint indexed before
  stale :
      (i : ℕ) → indexed ≡ some i → (i == fingerprint) ≡ false → Changed fingerprint indexed before

-- An observation submitted `j`: the repository had no unfinished job, its watch was on and its
-- change due, and the new job is stored and tracked.
pub record Submitted (s : Settings) (now fresh repository fingerprint : ℕ) (indexed : Option ℕ)
    (old new : Db) (j : Job) : Type 0 where
  pub quiet : has_active repository old ≡ false
  pub is_job : j ≡ watch_job s now fresh repository
  pub stored : new.jobs ≡ insert fresh j old.jobs
  pub before : Watch
  pub found : old.watches.row repository ≡ some before
  pub is_on : before.enabled ≡ true
  pub due : Due s now fingerprint before
  pub changed : Changed fingerprint indexed before
  pub watch : Watch
  pub tracked : new.watches.row repository ≡ some watch
  pub submitted : watch.submitted_fingerprint ≡ some fingerprint
  pub last_job : watch.last_job_id ≡ some j.id

-- What being ready says of the row before the two updates.
module _ (s : Settings) (now repository fingerprint : ℕ) (db : Db) where
  noted-Other :
      (v : Watch)
      → is_ready s now repository db (note_fingerprint now fingerprint v) ≡ true
      → is_id v.submitted_fingerprint fingerprint ≡ false
  unfolding is_ready note_fingerprint
  noted-Other v h = elim (Option-cases v.submitted_fingerprint) [
    | inl none_yet ↦ rw none_yet refl
    | inr (x, last) ↦ ground (arith, last)
  ]

  noted-Due :
      (v : Watch)
      → is_ready s now repository db (note_fingerprint now fingerprint v) ≡ true
      → Due s now fingerprint v
  unfolding is_ready note_fingerprint
  noted-Due v h = elim (Bool-cases (is_id v.observed_fingerprint fingerprint)) [
    | inl same ↦ elim (Bool-cases (is_older v.stable_since s.watch_debounce now)) [
      | inl old ↦ stood same old
      | inr young ↦ waited (ground (arith, noted-Other v h))
    ]
    | inr new ↦ elim (Bool-cases (leb (now + s.watch_debounce) now)) [
      | inl old ↦ at_once (ground arith)
      | inr young ↦ waited (ground (arith, noted-Other v h))
    ]
  ]

  Due-forgotten :
      (w : Watch)
      → Due s now fingerprint (record w { submitted_fingerprint = none })
      → Due s now fingerprint w
  Due-forgotten w (stood seen old) = stood seen old
  Due-forgotten w (at_once none_needed) = at_once none_needed
  Due-forgotten w (waited long) = waited long

  -- The first update leaves the row, or forgets a submission that the index does not have.
  forgotten_or_not :
      (indexed : Option ℕ) (w : Watch)
      → (forget_submitted repository fingerprint indexed db w ≡ w)
        ⊎ ((forget_submitted repository fingerprint indexed db w
              ≡ record w { submitted_fingerprint = none })
            × Changed fingerprint indexed w)
  unfolding forget_submitted
  forgotten_or_not none w = inl refl
  forgotten_or_not (some i) w =
      elim (Bool-cases (
        not (i == fingerprint)
        && is_id w.submitted_fingerprint fingerprint
        && job_completed db w.last_job_id
        && not (has_active repository db))) [
          | inr keep ↦ inl (rw keep refl)
          | inl forget ↦ inr (rw forget (refl, stale i refl (ground arith)))
        ]

  -- What being ready says of the row before the two updates.
  observed-Due :
      (indexed : Option ℕ) (w : Watch)
      → is_ready s now repository db (observed now repository fingerprint indexed db w) ≡ true
      → Due s now fingerprint w × Changed fingerprint indexed w
  unfolding observed
  observed-Due indexed w h = elim (forgotten_or_not indexed w) [
    | inl same ↦
        let k =
          subst (λ v. is_ready s now repository db (note_fingerprint now fingerprint v) ≡ true) same
            h in
        (noted-Due w k, other (noted-Other w k))
    | inr (forgotten, changed) ↦
        let k =
          subst (λ v. is_ready s now repository db (note_fingerprint now fingerprint v) ≡ true)
            forgotten h in
        (Due-forgotten w (noted-Due (record w { submitted_fingerprint = none }) k), changed)
  ]

-- What an observation of the row `w` submitted.
record Stored (s : Settings) (now fresh repository fingerprint : ℕ) (w : Watch) (old new : Db)
    (j : Job) : Type 0 where
  quiet : has_active repository old ≡ false
  is_job : j ≡ watch_job s now fresh repository
  stored : new.jobs ≡ insert fresh j old.jobs
  ready : is_ready s now repository old w ≡ true
  watch : Watch
  tracked : new.watches.row repository ≡ some watch
  submitted : watch.submitted_fingerprint ≡ some fingerprint
  last_job : watch.last_job_id ≡ some j.id

observe_enabled-Stored :
    (s : Settings) (now fresh repository fingerprint : ℕ) (w : Watch) (db new : Db) (j : Job)
    → observe_enabled s now fresh repository fingerprint w db ≡ ok (some j, new)
    → Stored s now fresh repository fingerprint w db new j
unfolding observe_enabled insert_job submit_watch is_ready put
observe_enabled-Stored s now fresh repository fingerprint w db new j e =
    elim (Bool-cases (is_ready s now repository db w)) [
      | inr early ↦ absurd (ground arith)
      | inl ready ↦ elim (Bool-cases (is_some (db.jobs.row fresh))) [
        | inl used ↦ absurd (ground arith)
        | inr unused ↦ elim (Bool-cases (is_some (db.executions.row repository))) [
          | inr homeless ↦ absurd (ground arith)
          | inl housed ↦
              let same : watch_job s now fresh repository ≡ j = ground arith in
              record {
                quiet = ground arith;
                is_job = sym same;
                stored = ground arith;
                ready = ready;
                watch = record w {
                  submitted_fingerprint = some fingerprint;
                  last_job_id = some fresh;
                  pending_since = none;
                };
                tracked = ground arith;
                submitted = refl;
                last_job = ground arith;
              }
        ]
      ]
    ]

-- A job that an observation submits is a new incremental job for a repository whose watch is on and
-- which has no unfinished work, and the watch tracks the job and the fingerprint. By the watch's row
-- before the observation the fingerprint is not the one submitted last, or the index shows that it
-- was not indexed, and the change has stood for the debounce time or waited long enough.
pub observe-Submitted :
    (s : Settings) (now fresh repository fingerprint : ℕ) (indexed : Option ℕ) (db new : Db)
    (j : Job)
    → observe s now fresh repository fingerprint indexed db ≡ ok (some j, new)
    → Submitted s now fresh repository fingerprint indexed db new j
unfolding observe
observe-Submitted s now fresh repository fingerprint indexed db new j e =
    elim (Option-cases (db.watches.row repository)) [
      | inl gone ↦ absurd (ground arith)
      | inr (w, there) ↦ elim (Bool-cases w.enabled) [
        | inr off ↦ absurd (ground arith)
        | inl on ↦
            let o =
              observe_enabled-Stored s now fresh repository fingerprint
                (observed now repository fingerprint indexed db w) db new j (ground arith) in
            let (due, changed) = observed-Due s now repository fingerprint db indexed w o.ready in
            record {
              quiet = o.quiet;
              is_job = o.is_job;
              stored = o.stored;
              before = w;
              found = there;
              is_on = on;
              due = due;
              changed = changed;
              watch = o.watch;
              tracked = o.tracked;
              submitted = o.submitted;
              last_job = o.last_job;
            }
      ]
    ]

-- An observation that submits nothing.
pub record OnlyNoted (r : Result (Option Job × Db)) : Type 0 where
  pub new : Db
  pub is_ok : r ≡ ok (none, new)

busy-OnlyNoted :
    (s : Settings) (now fresh repository fingerprint : ℕ) (indexed : Option ℕ) (db : Db)
    → has_active repository db ≡ true
    → OnlyNoted (observe s now fresh repository fingerprint indexed db)
unfolding observe observe_enabled is_ready
busy-OnlyNoted s now fresh repository fingerprint indexed db busy =
    elim (Option-cases (db.watches.row repository)) [
      | inl gone ↦ record { new = db; is_ok = ground arith }
      | inr (w, there) ↦ elim (Bool-cases w.enabled) [
        | inr off ↦ record { new = db; is_ok = ground arith }
        | inl on ↦
            let seen : Watch = observed now repository fingerprint indexed db w in
            record {
              new = record db { watches = put repository seen db.watches };
              is_ok = ground arith;
            }
      ]
    ]

insert_active :
    (s : Settings) (now fresh repository : ℕ) (old new : Db)
    → has_active repository old ≡ false
    → new.jobs ≡ insert fresh (watch_job s now fresh repository) old.jobs
    → has_active repository new ≡ true
unfolding has_active is_active_in
insert_active s now fresh repository old new quiet e =
    elim (Option-cases (find_where (is_active_in repository) old.jobs)) [
      | inr (j, active) ↦ absurd (ground arith)
      | inl none_yet ↦
          rw
            (
              e,
              find_where-insert (is_active_in repository) old.jobs fresh
                  (watch_job s now fresh repository) none_yet (ground arith),
            )
            refl
    ]

-- Right after an observation has submitted a job, no other observation of the repository submits
-- one, at any time and with any fingerprint.
pub observe-OnlyNoted :
    (s s' : Settings) (now now' fresh fresh' repository fingerprint fingerprint' : ℕ)
    (indexed indexed' : Option ℕ) (db new : Db) (j : Job)
    → observe s now fresh repository fingerprint indexed db ≡ ok (some j, new)
    → OnlyNoted (observe s' now' fresh' repository fingerprint' indexed' new)
observe-OnlyNoted s s' now now' fresh fresh' repository fingerprint fingerprint' indexed indexed' db
      new j e =
    let o : Submitted s now fresh repository fingerprint indexed db new j =
      observe-Submitted s now fresh repository fingerprint indexed db new j e in
    busy-OnlyNoted s' now' fresh' repository fingerprint' indexed' new (
      insert_active s now fresh repository db new o.quiet
        (subst (λ x. new.jobs ≡ insert fresh x db.jobs) o.is_job o.stored))
