-- ===== src/Watching/Refines.antt =====
-- A round of the watcher against its relation on histories.
use repomesh.Prelude.{
  ℕ, suc, ◌+◌, ◌≡◌, refl, sym, ap, ◌∙◌, subst, true, false, Option, none, some, List, [], ◌∷◌, ◌++◌,
  arith, Bool-cases, Option-cases, inl, inr,
}
use repomesh.Coordination.Schema.{Db, Job, Failure, Message, Settings, Result, ok, err, after}
use repomesh.Coordination.Watches.{record_error}
use repomesh.Coordination.World.{World, Action, watches, step, run}
use repomesh.Storage.Files.{Repository}
use repomesh.Watching.Watcher.{
  Watching, Round, others_run, ensure_one, ensure_all, is_enabled, scan, counted, observe_scan,
  look_at, add_count, go_on, look_at_all, run_once,
}
use repomesh.Watching.Looks.{
  stepped, ensuring, HasWatch, at_look, error_noted, observation, seen, Looks, LooksTo, finished,
  stopped, passed_over, scan_failed, noted, submitted, raised,
}

run-append :
    (s : Settings) (exhausted : Message) (w : World) (a b : List (ℕ × Action))
    → run s exhausted w (a ++ b) ≡ run s exhausted (run s exhausted w a) b
unfolding run
run-append s exhausted w [] b = refl
run-append s exhausted w (x ∷ a) b = run-append s exhausted (step s exhausted w x) a b

module _ (e : Watching) where
  ran_on :
      (w : World) (others : List (ℕ × Action)) (a : ℕ × Action) (h : List (ℕ × Action))
      → run e.settings e.exhausted (stepped e (others_run e others w) a) h
        ≡ run e.settings e.exhausted w (others ++ a ∷ h)
  unfolding run
  ran_on w others a h = sym (run-append e.settings e.exhausted w others (a ∷ h))

  enabled-HasWatch : (db : Db) (x : Repository) → is_enabled e db x ≡ true → HasWatch e db x
  enabled-HasWatch db x h = elim (Option-cases (db.watches.row (e.number x.id))) [
    | inl gone ↦ absurd (ground arith)
    | inr (watch, there) ↦ record { watch = watch; found = there; on = ground arith }
  ]

  paused-not-HasWatch : (db : Db) (x : Repository) → is_enabled e db x ≡ false → ¬ HasWatch e db x
  paused-not-HasWatch db x h = λ k. ground (arith, k.found, k.on)

  module _ (enabled : Db) (x : Repository) (xs : List Repository) (w : World)
      (on : (e.look x.id).stop_is_set ≡ false) (watch : HasWatch e enabled x) where
    -- One transaction, then the other repositories.
    joined :
        (k : ℕ) (a : ℕ × Action) (v : World) (r : Round)
        → stepped e (at_look e x w) a ≡ v
        → LooksTo e enabled v xs r
        → ((h : List (ℕ × Action)) (n : ℕ) (end : Option Failure)
            → Looks e enabled (stepped e (at_look e x w) a) xs h n end
            → Looks e enabled w (x ∷ xs) ((e.look x.id).others ++ a ∷ h) (k + n) end)
        → LooksTo e enabled w (x ∷ xs) (add_count e k r)
    joined k a v r p later f = record {
      history = (e.look x.id).others ++ a ∷ later.history;
      looks =
          f later.history r.count r.raised
            (subst (λ u. Looks e enabled u xs later.history r.count r.raised) (sym p) later.looks);
      world =
          later.world
          ∙ ap (λ u. run e.settings e.exhausted u later.history) (sym p)
          ∙ ran_on w (e.look x.id).others a later.history;
    }

    module _ (rest : World → Round) (ih : (v : World) → LooksTo e enabled v xs (rest v)) where
      observed_on :
          (f i : ℕ)
          → scan e x (e.look x.id) ≡ some (f, i)
          → (r : Result (Option Job × Db)) → seen e x f i w ≡ r
          → LooksTo e enabled w (x ∷ xs) (go_on e (counted e (at_look e x w) r) rest)
      unfolding step
      observed_on f i found (ok (none, db)) q =
          let v = record (at_look e x w) { db = db } in
          joined 0 (observation e x f i) v (rest v)
            (ap (λ r. record (at_look e x w) { db = after (at_look e x w).db r }) q) (ih v)
            (λ h n end l.
              subst
                (λ c.
                  Looks e enabled w (x ∷ xs) ((e.look x.id).others ++ observation e x f i ∷ h) c
                    end)
                (let z : n ≡ 0 + n = omega arith in z)
                (noted w x xs h n end f i db on watch found q l))
      observed_on f i found (ok (some j, db)) q =
          let v = record (at_look e x w) { db = db } in
          joined 1 (observation e x f i) v (rest v)
            (ap (λ r. record (at_look e x w) { db = after (at_look e x w).db r }) q) (ih v)
            (λ h n end l.
              subst
                (λ c.
                  Looks e enabled w (x ∷ xs) ((e.look x.id).others ++ observation e x f i ∷ h) c
                    end)
                (let z : suc n ≡ 1 + n = omega arith in z)
                (submitted w x xs h n end f i j db on watch found q l))
      observed_on f i found (err failure) q = record {
        history = (e.look x.id).others ++ observation e x f i ∷ [];
        looks = raised w x xs f i failure on watch found q;
        world =
            sym (ap (λ r. record (at_look e x w) { db = after (at_look e x w).db r }) q)
            ∙ unfold run in ran_on w (e.look x.id).others (observation e x f i) [];
      }

      scanned_on :
          (found : Option (ℕ × ℕ))
          → scan e x (e.look x.id) ≡ found
          → LooksTo e enabled w
              (x ∷ xs)
              (go_on e (observe_scan e x (e.look x.id) found (at_look e x w)) rest)
      unfolding step
      scanned_on none q =
          let look = e.look x.id in
          let v = record (at_look e x w) {
            db = record_error look.now (e.number x.id) look.message (at_look e x w).db;
          } in
          joined 0 (error_noted e x) v (rest v) refl (ih v) (λ h n end l.
            subst
              (λ c. Looks e enabled w (x ∷ xs) ((e.look x.id).others ++ error_noted e x ∷ h) c end)
              (let z : n ≡ 0 + n = omega arith in z) (scan_failed w x xs h n end on watch q l))
      scanned_on (some (f, i)) q = observed_on f i q (seen e x f i w) refl

  abbrev pub idle : World → Round
  idle w = record { count = 0; raised = none; world = w }

  look_at_all-LooksTo :
      (enabled : Db) (xs : List Repository) (w : World)
      → LooksTo e enabled w xs (look_at_all e enabled xs w)
  unfolding look_at_all
  look_at_all-LooksTo enabled [] w = record { history = []; looks = finished w; world = refl }
  look_at_all-LooksTo enabled (x ∷ xs) w = elim (Bool-cases (e.look x.id).stop_is_set) [
    | inl stop ↦
        subst (LooksTo e enabled w (x ∷ xs))
          (let z : idle w ≡ look_at_all e enabled (x ∷ xs) w = rw stop in z)
          (record { history = []; looks = stopped w x xs stop; world = refl })
    | inr on ↦ elim (Bool-cases (is_enabled e enabled x)) [
      | inl watch ↦
          subst (LooksTo e enabled w (x ∷ xs))
            (let z : go_on e
                    (observe_scan e x (e.look x.id) (scan e x (e.look x.id)) (at_look e x w))
                    (look_at_all e enabled xs)
                  ≡ look_at_all e enabled (x ∷ xs) w =
                unfold look_at in rw (on, watch) in
              z)
            (scanned_on enabled x xs w on (enabled-HasWatch enabled x watch)
              (look_at_all e enabled xs) (look_at_all-LooksTo enabled xs) (scan e x (e.look x.id))
              refl)
      | inr paused ↦
          let later = look_at_all-LooksTo enabled xs w in
          subst (LooksTo e enabled w (x ∷ xs))
            (let z : look_at_all e enabled xs w ≡ look_at_all e enabled (x ∷ xs) w =
                rw (on, paused) in
              z)
            (record {
              history = later.history;
              looks =
                  passed_over w x xs later.history (look_at_all e enabled xs w).count
                    (look_at_all e enabled xs w).raised on (paused-not-HasWatch enabled x paused)
                    later.looks;
              world = later.world;
            })
    ]
  ]

  ensured_as :
      (xs : List Repository) (w : World)
      → others_run e e.before_list (ensure_all e xs w)
        ≡ run e.settings e.exhausted w (ensuring e xs)
  unfolding ensure_all step
  ensured_as [] w = refl
  ensured_as (x ∷ xs) w =
      ensured_as xs (ensure_one e x (others_run e (e.look x.id).before_ensure w))
      ∙ ran_on w (e.look x.id).before_ensure (0, watches (e.number x.id) none) (ensuring e xs)

  abbrev pub listed_at : List Repository → World → World
  listed_at xs w = run e.settings e.exhausted w (ensuring e xs)

  -- Without the lock nothing is done. With it, the world is that of the transactions up to the list,
  -- then those of the second loop on the tables of that list.
  pub record Refined (xs : List Repository) (w : World) (r : Round) : Type 0 where
    pub locked_out : e.acquired ≡ false → r ≡ idle w
    pub looks : e.acquired ≡ true → LooksTo e (listed_at xs w).db (listed_at xs w) xs r

-- A round without the advisory lock does nothing. A round with it ensures the watch of each
-- repository in turn, lists the watches, and goes through the repositories: up to a stop, passing
-- over those that have no watch in that list or one that is off, recording an error for one that
-- cannot be scanned, and observing any other once, with its two fingerprints, up to an error of
-- PostgreSQL. Its world is that of these transactions with those of other processes before each of
-- them, and its count is that of the observations that submit a job. It raises exactly the error
-- that ended it.
pub run_once-Refines :
    (e : Watching) (xs : List Repository) (w : World) → Refined e xs w (run_once e xs w)
unfolding run_once
run_once-Refines e xs w = record {
  locked_out = λ h. rw h;
  looks = λ h.
      subst (LooksTo e (listed_at e xs w).db (listed_at e xs w) xs)
        (let z : look_at_all e (listed_at e xs w).db xs (listed_at e xs w) ≡ run_once e xs w =
            rw (h, ensured_as e xs w) in
          z)
        (look_at_all-LooksTo e (listed_at e xs w).db xs (listed_at e xs w));
}
