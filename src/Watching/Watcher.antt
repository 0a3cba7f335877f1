-- ===== src/Watching/Watcher.antt =====
-- watcher.py: RepositoryWatcher.run_once. Between the watcher's own transactions other processes
-- run theirs, so a round works on the world of Coordination/World.
use repomesh.Prelude.{ℕ, ◌+◌, Bool, false, Option, none, some, List, [], ◌∷◌, if◌then◌else◌}
use repomesh.Table.{id_eq}
use repomesh.Coordination.Schema.{Db, Job, Watch, Message, Settings, Failure, Result, ok, err}
use repomesh.Coordination.Watches.{ensure_watch, record_error, observe}
use repomesh.Coordination.World.{World, Action, run}
use repomesh.Chunking.Texts.{Text}
use repomesh.Storage.Files.{Repository, Index}
use repomesh.Discovery.Filters.{Parts}
use repomesh.Discovery.Files.{Host, Validation, accepted, rejected, validate_repository_path}
use repomesh.Watching.Fingerprint.{repository_fingerprint, stored_fingerprint}

-- What a round meets at a repository: the transactions of other processes before it ensures the
-- repository's watch, the stop event, those before it observes or records an error, the clock, a new
-- id, the files and the index as they are then, and the text of an exception.
pub record Look : Type 0 where
  pub before_ensure : List (ℕ × Action)
  pub stop_is_set : Bool
  pub others : List (ℕ × Action)
  pub now : ℕ
  pub fresh : ℕ
  pub host : Host
  pub sha256 : Parts → Option Text
  pub index : Index
  pub message : Message

-- `hash` is SHA-256, `number` the coordination's number of a repository's id, `acquired` whether
-- the advisory lock was free, and `before_list` what other processes do before the watches are listed.
pub record Watching : Type 0 where
  pub settings : Settings
  pub exhausted : Message
  pub roots : List Parts
  pub max_bytes : ℕ
  pub hash : Text → ℕ
  pub number : Text → ℕ
  pub acquired : Bool
  pub before_list : List (ℕ × Action)
  pub look : Text → Look

-- `raised` is the error of PostgreSQL that ended the round.
pub record Round : Type 0 where
  pub count : ℕ
  pub raised : Option Failure
  pub world : World

module _ (e : Watching) where
  abbrev pub others_run : List (ℕ × Action) → World → World
  others_run others w = run e.settings e.exhausted w others

  abbrev pub ensure_one : Repository → World → World
  ensure_one x w = record w { db = ensure_watch e.settings (e.number x.id) none w.db }

  unfoldable pub ensure_all : List Repository → World → World
  unfolding run
  ensure_all [] w = w
  ensure_all (x ∷ xs) w = ensure_all xs (ensure_one x (others_run (e.look x.id).before_ensure w))

  abbrev pub is_on : Option Watch → Bool
  is_on none = false
  is_on (some watch) = watch.enabled

  abbrev pub is_enabled : Db → Repository → Bool
  is_enabled db x = is_on (db.watches.row (e.number x.id))

  -- The fingerprint of the files and that of the index, `none` for an exception.
  abbrev pub fingerprints : Repository → Look → Option Text → Option (ℕ × ℕ)
  fingerprints x look none = none
  fingerprints x look (some text) =
      some (e.hash text, e.hash (stored_fingerprint x.id x.commit_sha look.index))

  abbrev pub scanned : Repository → Look → Validation → Option (ℕ × ℕ)
  scanned x look (rejected reason) = none
  scanned x look (accepted root) =
      fingerprints x look (repository_fingerprint look.host look.sha256 root e.max_bytes)

  unfoldable pub scan : Repository → Look → Option (ℕ × ℕ)
  unfolding validate_repository_path repository_fingerprint stored_fingerprint
  scan x look = scanned x look (validate_repository_path look.host x.root e.roots)

  abbrev pub counted : World → Result (Option Job × Db) → Round
  counted w (err failure) = record { count = 0; raised = some failure; world = w }
  counted w (ok (none, db)) = record { count = 0; raised = none; world = record w { db = db } }
  counted w (ok (some job, db)) = record { count = 1; raised = none; world = record w { db = db } }

  -- The try of an enabled repository.
  abbrev pub observe_scan : Repository → Look → Option (ℕ × ℕ) → World → Round
  observe_scan x look none w = record {
    count = 0;
    raised = none;
    world = record w { db = record_error look.now (e.number x.id) look.message w.db };
  }
  observe_scan x look (some (fingerprint, indexed)) w =
      counted w
        (observe e.settings look.now look.fresh (e.number x.id) fingerprint (some indexed) w.db)

  unfoldable pub look_at : Repository → World → Round
  unfolding run scan
  look_at x w =
      let look = e.look x.id in
      observe_scan x look (scan x look) (run e.settings e.exhausted w look.others)

  abbrev pub add_count : ℕ → Round → Round
  add_count n r = record r { count = n + r.count }

  abbrev pub go_on : Round → (World → Round) → Round
  go_on r rest = elim r.raised [ some failure ↦ r | none ↦ add_count r.count (rest r.world) ]

  -- `enabled` is the database from which the enabled repositories were read.
  unfoldable pub look_at_all : Db → List Repository → World → Round
  unfolding look_at
  look_at_all enabled [] w = record { count = 0; raised = none; world = w }
  look_at_all enabled (x ∷ xs) w =
      if (e.look x.id).stop_is_set
      then record { count = 0; raised = none; world = w }
      else if is_enabled enabled x
      then go_on (look_at x w) (look_at_all enabled xs)
      else look_at_all enabled xs w

  abbrev round_from : List Repository → World → Round
  round_from xs w = look_at_all w.db xs w

  unfoldable pub run_once : List Repository → World → Round
  unfolding ensure_all look_at_all
  run_once xs w =
      if e.acquired
      then round_from xs (others_run e.before_list (ensure_all xs w))
      else record { count = 0; raised = none; world = w }
