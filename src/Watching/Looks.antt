-- ===== src/Watching/Looks.antt =====
-- What a round of the watcher does (watcher.py: run_once), as a relation on histories.
use repomesh.Prelude.{ℕ, suc, ◌≡◌, true, false, Option, none, some, List, [], ◌∷◌, ◌++◌}
use repomesh.Coordination.Schema.{Db, Job, Watch, Failure, Result, ok, err}
use repomesh.Coordination.Watches.{observe}
use repomesh.Coordination.World.{World, Action, watches, notes_error, observes, step, run}
use repomesh.Storage.Files.{Repository}
use repomesh.Watching.Watcher.{Watching, Round, others_run, scan}

module _ (e : Watching) where
  abbrev pub stepped : World → ℕ × Action → World
  stepped w a = step e.settings e.exhausted w a

  -- The transactions up to the list of the watches: one for every repository, in their order.
  abbrev pub ensuring : List Repository → List (ℕ × Action)
  ensuring [] = e.before_list
  ensuring (x ∷ xs) = (e.look x.id).before_ensure ++ (0, watches (e.number x.id) none) ∷ ensuring xs

  -- A watch that is on.
  pub record HasWatch (db : Db) (x : Repository) : Type 0 where
    pub watch : Watch
    pub found : db.watches.row (e.number x.id) ≡ some watch
    pub on : watch.enabled ≡ true

  -- The world in which a repository is observed.
  abbrev pub at_look : Repository → World → World
  at_look x w = others_run e (e.look x.id).others w

  abbrev pub error_noted : Repository → ℕ × Action
  error_noted x = let look = e.look x.id in (look.now, notes_error (e.number x.id) look.message)

  abbrev pub observation : Repository → ℕ → ℕ → ℕ × Action
  observation x fingerprint indexed =
      let look = e.look x.id in
      (look.now, observes look.fresh (e.number x.id) fingerprint (some indexed))

  -- What the observation of a repository's fingerprints comes to.
  abbrev pub seen : Repository → ℕ → ℕ → World → Result (Option Job × Db)
  seen x fingerprint indexed w =
      let look = e.look x.id in
      observe e.settings look.now look.fresh (e.number x.id) fingerprint (some indexed)
        (at_look x w).db

  -- The transactions of the second loop from a world on, how many jobs they submit and the error
  -- that ends them. `enabled` are the tables of the list: a repository without a watch that is on
  -- there has no transaction, one that cannot be scanned records the error, any other is observed
  -- once, and the loop ends with the repositories, at a stop, or with an error of PostgreSQL.
  pub data Looks (enabled : Db)
      : World → List Repository → List (ℕ × Action) → ℕ → Option Failure → Type 0 where
    finished : (w : World) → Looks enabled w [] [] 0 none
    stopped :
        (w : World) (x : Repository) (xs : List Repository)
        → (e.look x.id).stop_is_set ≡ true
        → Looks enabled w (x ∷ xs) [] 0 none
    passed_over :
        (w : World) (x : Repository) (xs : List Repository) (h : List (ℕ × Action)) (n : ℕ)
        (end : Option Failure)
        → (e.look x.id).stop_is_set ≡ false
        → ¬ HasWatch enabled x
        → Looks enabled w xs h n end
        → Looks enabled w (x ∷ xs) h n end
    scan_failed :
        (w : World) (x : Repository) (xs : List Repository) (h : List (ℕ × Action)) (n : ℕ)
        (end : Option Failure)
        → (e.look x.id).stop_is_set ≡ false
        → HasWatch enabled x
        → scan e x (e.look x.id) ≡ none
        → Looks enabled (stepped (at_look x w) (error_noted x)) xs h n end
        → Looks enabled w (x ∷ xs) ((e.look x.id).others ++ error_noted x ∷ h) n end
    noted :
        (w : World) (x : Repository) (xs : List Repository) (h : List (ℕ × Action)) (n : ℕ)
        (end : Option Failure) (f i : ℕ) (db : Db)
        → (e.look x.id).stop_is_set ≡ false
        → HasWatch enabled x
        → scan e x (e.look x.id) ≡ some (f, i)
        → seen x f i w ≡ ok (none, db)
        → Looks enabled (stepped (at_look x w) (observation x f i)) xs h n end
        → Looks enabled w (x ∷ xs) ((e.look x.id).others ++ observation x f i ∷ h) n end
    submitted :
        (w : World) (x : Repository) (xs : List Repository) (h : List (ℕ × Action)) (n : ℕ)
        (end : Option Failure) (f i : ℕ) (j : Job) (db : Db)
        → (e.look x.id).stop_is_set ≡ false
        → HasWatch enabled x
        → scan e x (e.look x.id) ≡ some (f, i)
        → seen x f i w ≡ ok (some j, db)
        → Looks enabled (stepped (at_look x w) (observation x f i)) xs h n end
        → Looks enabled w (x ∷ xs) ((e.look x.id).others ++ observation x f i ∷ h) (suc n) end
    raised :
        (w : World) (x : Repository) (xs : List Repository) (f i : ℕ) (failure : Failure)
        → (e.look x.id).stop_is_set ≡ false
        → HasWatch enabled x
        → scan e x (e.look x.id) ≡ some (f, i)
        → seen x f i w ≡ err failure
        → Looks enabled w (x ∷ xs) ((e.look x.id).others ++ observation x f i ∷ []) 0 (some failure)

  pub record LooksTo (enabled : Db) (w : World) (xs : List Repository) (r : Round) : Type 0 where
    pub history : List (ℕ × Action)
    pub looks : Looks enabled w xs history r.count r.raised
    pub world : r.world ≡ run e.settings e.exhausted w history
