-- ===== src/Coordination/Watches.antt =====
-- coordination/watches.py: WatchRepository.
use repomesh.Prelude.{
  ℕ, ◌+◌, ◌*◌, Bool, true, false, not, ◌&&◌, ◌||◌, Option, none, some, leb, ltb, ◌==◌, is_id,
  is_some, max, take, get_or, [], ◌∷◌, if◌then◌else◌,
}
use repomesh.Table.{update_at, ensure, find_where, put, id_eq}
use repomesh.Coordination.Schema.{
  Db, Job, Watch, Status, queued, running, retrying, completed, completed_with_errors, failed,
  cancelled, incremental, watch, Message, Settings, Result, ok, err, is_running, is_waiting,
}
use repomesh.Coordination.Jobs.{default_job, insert_job, ensure_execution}

abbrev pub new_watch : Bool → Watch
new_watch enabled = record {
  enabled = enabled;
  observed_fingerprint = none;
  submitted_fingerprint = none;
  stable_since = none;
  pending_since = none;
  last_checked_at = none;
  last_job_id = none;
  error = none;
}

-- ensure: both inserts leave a row that is there alone.
unfoldable pub ensure_watch : Settings → ℕ → Option Bool → Db → Db
unfolding ensure_execution
ensure_watch s repository enabled db =
    let db' = ensure_execution repository db in
    record db' {
      watches = ensure repository (new_watch (get_or enabled s.watch_default_enabled)) db'.watches;
    }

-- A watch that is turned on again starts with the whole repository pending.
unfoldable pub switch : ℕ → Bool → Watch → Watch
switch now enabled w =
    if enabled && not w.enabled
    then record w { enabled = enabled; submitted_fingerprint = none; pending_since = some now }
    else record w { enabled = enabled }

-- The UPDATE of set_enabled, a transaction of its own.
unfoldable pub write_enabled : ℕ → ℕ → Bool → Db → Db
unfolding switch
write_enabled now repository enabled db = record db {
  watches = update_at repository (λ w. true) (switch now enabled) db.watches;
}

-- set_enabled: two transactions, with those of other processes `between` them.
unfoldable pub set_enabled : Settings → ℕ → ℕ → Bool → (Db → Db) → Db → Db
unfolding ensure_watch write_enabled
set_enabled s now repository enabled between db =
    write_enabled now repository enabled (between (ensure_watch s repository (some enabled) db))

unfoldable pub record_error : ℕ → ℕ → Message → Db → Db
record_error now repository message db = record db {
  watches = update_at repository (λ w. w.enabled) fail db.watches;
}
  where
    fail : Watch → Watch
    fail w = record w { error = some (take 2000 message); last_checked_at = some now }

-- EXISTS(SELECT 1 FROM jobs WHERE repository_id = … AND status IN ('queued','running','retrying'))
unfoldable pub is_active_in : ℕ → Job → Bool
is_active_in repository j =
    j.repository_id == repository && (is_waiting j.status || is_running j.status)

unfoldable pub has_active : ℕ → Db → Bool
unfolding is_active_in
has_active repository db = is_some (find_where (is_active_in repository) db.jobs)

abbrev pub is_completed : Status → Bool
is_completed completed = true
is_completed _ = false

abbrev row_completed : Option Job → Bool
row_completed none = false
row_completed (some j) = is_completed j.status

abbrev pub job_completed : Db → Option ℕ → Bool
job_completed db none = false
job_completed db (some id) = row_completed (db.jobs.row id)

-- The first UPDATE of observe: the persisted manifest shows that the submitted fingerprint was not
-- what got indexed, and no work is under way that could still change that.
unfoldable pub forget_submitted : ℕ → ℕ → Option ℕ → Db → Watch → Watch
unfolding has_active
forget_submitted repository fingerprint none db w = w
forget_submitted repository fingerprint (some indexed) db w =
    if not (indexed == fingerprint)
      && is_id w.submitted_fingerprint fingerprint
      && job_completed db w.last_job_id
      && not (has_active repository db)
    then record w { submitted_fingerprint = none }
    else w

-- The second UPDATE of observe.
unfoldable pub note_fingerprint : ℕ → ℕ → Watch → Watch
note_fingerprint now fingerprint w = record w {
  stable_since = if is_id w.observed_fingerprint fingerprint then w.stable_since else some now;
  pending_since =
      if is_id w.submitted_fingerprint fingerprint then none else some (get_or w.pending_since now);
  observed_fingerprint = some fingerprint;
  last_checked_at = some now;
  error = none;
}

-- column <= clock_timestamp() - duration
abbrev pub is_older : Option ℕ → ℕ → ℕ → Bool
is_older none age now = false
is_older (some t) age now = leb (t + age) now

abbrev pub same_option : Option ℕ → Option ℕ → Bool
same_option none none = true
same_option none (some b) = false
same_option (some a) b = is_id b a

unfoldable pub is_ready : Settings → ℕ → ℕ → Db → Watch → Bool
unfolding has_active
is_ready s now repository db w =
    not (same_option w.observed_fingerprint w.submitted_fingerprint)
    && (is_older w.stable_since s.watch_debounce now
        || is_older w.pending_since s.watch_max_wait now)
    && not (has_active repository db)

abbrev pub watch_job : Settings → ℕ → ℕ → ℕ → Job
watch_job s now fresh repository =
    record (default_job now fresh repository incremental s.job_max_retries) { trigger = watch }

unfoldable pub submit_watch : ℕ → ℕ → Watch → Result (Job × Db) → Result (Option Job × Db)
submit_watch repository fingerprint w (err e) = err e
submit_watch repository fingerprint w (ok (job, db)) =
    ok (some job, record db { watches = put repository submitted db.watches })
  where
    submitted : Watch
    submitted = record w {
      submitted_fingerprint = some fingerprint;
      last_job_id = some job.id;
      pending_since = none;
    }

-- The watch row after the two updates of an enabled watch.
unfoldable pub observed : ℕ → ℕ → ℕ → Option ℕ → Db → Watch → Watch
unfolding forget_submitted note_fingerprint
observed now repository fingerprint indexed db w =
    note_fingerprint now fingerprint (forget_submitted repository fingerprint indexed db w)

unfoldable pub observe_enabled : Settings → ℕ → ℕ → ℕ → ℕ → Watch → Db → Result (Option Job × Db)
observe_enabled s now fresh repository fingerprint w db =
    if is_ready s now repository db w
    then submit_watch repository fingerprint w (
        insert_job (watch_job s now fresh repository)
          (record db { watches = put repository w db.watches }))
    else ok (none, record db { watches = put repository w db.watches })

-- `fresh` is the uuid4 of a new job, `indexed` the fingerprint of the stored manifest.
unfoldable pub observe : Settings → ℕ → ℕ → ℕ → ℕ → Option ℕ → Db → Result (Option Job × Db)
observe s now fresh repository fingerprint indexed db = elim (db.watches.row repository) [
  | none ↦ ok (none, db)
  | some w ↦
      if w.enabled
      then observe_enabled s now fresh repository fingerprint
          (observed now repository fingerprint indexed db w) db
      else ok (none, db)
]

-- The states that list() shows.
pub data WatchState : Type 0 where
  paused scan_error watcher_unavailable pending_changes needs_attention watching : WatchState
  job_state : Status → WatchState

abbrev pub has_text : Option Message → Bool
has_text none = false
has_text (some []) = false
has_text (some (c ∷ cs)) = true

-- max(30, watch_poll_seconds * 3)
abbrev pub online_window : Settings → ℕ
online_window s = max 30_000_000 (s.watch_poll * 3)

-- last_checked_at > clock_timestamp() - the window
unfoldable pub is_online : Settings → ℕ → Watch → Bool
is_online s now w = elim w.last_checked_at [ none ↦ false | some t ↦ ltb now (t + online_window s) ]

abbrev shown_job : Option Status → Option Status
shown_job (some queued) = some queued
shown_job (some running) = some running
shown_job (some retrying) = some retrying
shown_job _ = none

abbrev is_attention : Option Status → Bool
is_attention (some failed) = true
is_attention (some cancelled) = true
is_attention (some completed_with_errors) = true
is_attention _ = false

unfoldable pub idle_state : Watch → Option Status → WatchState
idle_state w job =
    if not (same_option w.observed_fingerprint w.submitted_fingerprint)
    then pending_changes
    else if is_attention job
    then needs_attention
    else watching

-- The ladder of list(), for a row joined with the status of its last job.
unfoldable pub watch_state : Settings → ℕ → Watch → Option Status → WatchState
unfolding idle_state is_online
watch_state s now w job =
    if not w.enabled
    then paused
    else if has_text w.error
    then scan_error
    else if not (is_online s now w)
    then watcher_unavailable
    else elim (shown_job job) [ some status ↦ job_state status | none ↦ idle_state w job ]
