-- ===== src/Api/Routes.antt =====
-- api.py: require_token and the routes over the coordination and the index. Validation of a request's
-- body and the wait of a request to index, which is in Api/Wait, are outside.
use repomesh.Prelude.{
  ℕ, Bool, true, false, not, ◌&&◌, Option, none, some, is_some, List, [], ◌∷◌, ltb, drop,
  if◌then◌else◌,
}
use repomesh.Prelude.Int.{ℤ}
use repomesh.Table.{id_eq}
use repomesh.Coordination.Schema.{
  Db, Job, Mode, Watch, Settings, Failure, value_error, lookup_error, lease_lost,
  worker_identity_in_use, unique_violation, foreign_key_violation, check_violation, Result, ok, err,
}
use repomesh.Coordination.Jobs.{submit_job, get_job, resubmit_job, request_cancel}
use repomesh.Coordination.Watches.{ensure_watch, write_enabled}
use repomesh.Coordination.Reports.{
  latest_job, StatusFilter, Page, list_jobs, History, job_history, ShownWorker, list_workers,
}
use repomesh.Chunking.Texts.{Text, lower, same_text}
use repomesh.Storage.Files.{Repository, Index}
use repomesh.Storage.Repositories.{CountedRepository, repository, repositories, add_repository}
use repomesh.Discovery.Filters.{Parts}
use repomesh.Discovery.Files.{
  Host, Validation, accepted, rejected, validate_repository_path, register_repository,
}
use repomesh.Api.Answer.{starts_with}

pub record App : Type 0 where
  pub settings : Settings
  pub api_token : Text
  pub host : Host
  pub roots : List Parts
  pub number : Text → ℕ

pub record Headers : Type 0 where
  pub authorization : Option Text
  pub x_api_token : Option Text

pub record Service : Type 0 where
  pub index : Index
  pub db : Db

abbrev bearer : Text
bearer = b'b' ∷ b'e' ∷ b'a' ∷ b'r' ∷ b'e' ∷ b'r' ∷ 32 ∷ []

unfoldable pub is_ascii : Text → Bool
is_ascii [] = true
is_ascii (c ∷ cs) = ltb c 128 && is_ascii cs

abbrev pub supplied_by : Option Text → Option Text → Option Text
supplied_by none token = token
supplied_by (some authorization) token =
    if starts_with bearer (lower authorization) then some (drop 7 authorization) else token

-- The status of a refusal; compare_digest raises for a text that is not ASCII.
abbrev pub compared : Text → Option Text → Option ℕ
compared expected none = some 401
compared expected (some supplied) =
    if not (is_ascii supplied && is_ascii expected)
    then some 500
    else if same_text supplied expected
    then none
    else some 401

unfoldable pub require_token : Text → Headers → Option ℕ
unfolding is_ascii starts_with lower drop same_text
require_token [] headers = none
require_token (c ∷ cs) headers =
    compared (c ∷ cs) (supplied_by headers.authorization headers.x_api_token)

pub data Request : Type 0 where
  lists_repositories lists_workers : Request
  registers : Text → Option Text → Option Bool → Request
  indexes : Text → Mode → Option ℕ → ℤ → Request
  shows_status : Text → Request
  switches_watch : Text → Bool → Request
  lists_jobs : Option ℕ → StatusFilter → ℕ → ℕ → Request
  shows_history shows_job retries cancels : ℕ → Request

pub data Body : Type 0 where
  detail : Body
  repositories_body : List CountedRepository → Body
  registered_body : Repository → Body
  known_body : CountedRepository → Body
  job_body : Job → Body
  status_body : CountedRepository → Option Job → Body
  watch_body : Option Watch → Body
  page_body : Page → Body
  history_body : History → Body
  workers_body : List ShownWorker → Body

pub record Response : Type 0 where
  pub status_code : ℕ
  pub body : Body

abbrev pub refused : ℕ → Service → Response × Service
refused code s = (record { status_code = code; body = detail }, s)

abbrev pub replied : ℕ → Body → Service → Response × Service
replied code body s = (record { status_code = code; body = body }, s)

-- What an operation's exception becomes: a ValueError or LookupError what the route says, an error
-- of PostgreSQL 503, any other 500.
abbrev pub status_of : ℕ → ℕ → Failure → ℕ
status_of on_value on_lookup value_error = on_value
status_of on_value on_lookup lookup_error = on_lookup
status_of on_value on_lookup lease_lost = 500
status_of on_value on_lookup worker_identity_in_use = 500
status_of on_value on_lookup unique_violation = 503
status_of on_value on_lookup foreign_key_violation = 503
status_of on_value on_lookup check_violation = 503

abbrev pub job_reply : ℕ → (Failure → ℕ) → Service → Result (Job × Db) → Response × Service
job_reply code status s (ok (job, db)) = replied code (job_body job) (record s { db = db })
job_reply code status s (err e) = refused (status e) s

abbrev pub or_404 : {A : Type 0} → (A → Body) → Service → Option A → Response × Service
or_404 body s none = refused 404 s
or_404 body s (some a) = replied 200 (body a) s

-- Each transaction of PostgreSQL takes the next of a list of answers: without one it runs, and where
-- it is not answered its psycopg.Error or PoolTimeout becomes 503.
abbrev pub asking :
    List Bool → Service → (List Bool → Service → Response × Service) → Response × Service
asking [] s rest = rest [] s
asking (true ∷ up) s rest = rest up s
asking (false ∷ up) s rest = refused 503 s

abbrev pub then_reply : ℕ → Body → List Bool → Service → Response × Service
then_reply code body up s = replied code body s

-- `between` is what other processes' transactions do between two of a route's own.
module _ (app : App) (now : ℕ) (between : Db → Db) where
  abbrev pub watched : Option Bool → Text → Service → Service
  watched auto_index id s = record s {
    db = ensure_watch app.settings (app.number id) auto_index s.db;
  }

  -- watches.ensure and the response.
  abbrev pub ensured : Option Bool → Text → Body → List Bool → Service → Response × Service
  ensured auto_index id body up s = then_reply 201 body up (watched auto_index id s)

  -- The row of SQLite is committed before watches.ensure.
  abbrev pub stored :
      Option Bool → Repository → List Bool → Service → Option Index → Response × Service
  stored auto_index x up s none = refused 500 s
  stored auto_index x up s (some index) =
      asking up (record s { index = index }) (ensured auto_index x.id (registered_body x))

  abbrev pub added :
      Option Bool → Repository → List Bool → Service → Option CountedRepository → Response × Service
  added auto_index x up s (some existing) =
      asking up s (ensured auto_index existing.row.id (known_body existing))
  added auto_index x up s none = stored auto_index x up s (add_repository x s.index)

  abbrev pub registered_as :
      Option Bool → List Bool → Service → Option Repository → Response × Service
  registered_as auto_index up s none = refused 500 s
  registered_as auto_index up s (some x) = added auto_index x up s (repository x.id s.index)

  abbrev pub registered_at :
      Option Text → Option Bool → List Bool → Service → Validation → Response × Service
  registered_at name auto_index up s (rejected reason) = refused 400 s
  registered_at name auto_index up s (accepted path) =
      registered_as auto_index up s (register_repository app.host now path name)

  abbrev pub on_db : (Db → Db) → Service → Service
  on_db f s = record s { db = f s.db }

  -- update_watch from watches.set_enabled on: its two transactions and watches.list.
  abbrev pub listed : ℕ → List Bool → Service → Response × Service
  listed id up s = asking up s (λ up s. replied 200 (watch_body (s.db.watches.row id)) s)

  abbrev pub switched : ℕ → Bool → List Bool → Service → Response × Service
  switched id enabled up s =
      asking up s (λ up s. listed id up (on_db (write_enabled now id enabled) s))

  abbrev pub switching : ℕ → Bool → List Bool → Service → Response × Service
  switching id enabled up s = asking up s (λ up s.
      switched id enabled up
        (on_db (λ db. between (ensure_watch app.settings id (some enabled) db)) s))

  -- The routes behind require_token; `fresh` is the uuid4 of a new job.
  unfoldable pub route : ℕ → List Bool → Request → Service → Response × Service
  unfolding repository repositories validate_repository_path register_repository add_repository
      submit_job resubmit_job request_cancel get_job write_enabled latest_job list_jobs job_history
      list_workers
  route fresh up lists_repositories s = replied 200 (repositories_body (repositories s.index)) s
  route fresh up lists_workers s =
      asking up s (λ up s. replied 200 (workers_body (list_workers app.settings now s.db)) s)
  route fresh up (registers path name auto_index) s =
      registered_at name auto_index up s (validate_repository_path app.host path app.roots)
  route fresh up (indexes id mode key priority) s =
      if not (is_some (repository id s.index))
      then refused 404 s
      else asking up s (λ up s.
        job_reply 202 (status_of 409 500) s
          (submit_job app.settings now fresh (app.number id) mode key priority s.db))
  route fresh up (shows_status id) s = elim (repository id s.index) [
    | none ↦ refused 404 s
    | some x ↦ asking up s (λ up s. replied 200 (status_body x (latest_job (app.number id) s.db)) s)
  ]
  route fresh up (switches_watch id enabled) s =
      if not (is_some (repository id s.index))
      then refused 404 s
      else switching (app.number id) enabled up s
  route fresh up (lists_jobs id status limit offset) s =
      asking up s (λ up s. replied 200 (page_body (list_jobs id status limit offset s.db)) s)
  route fresh up (shows_history id) s =
      asking up s (λ up s. or_404 history_body s (job_history id s.db))
  route fresh up (shows_job id) s = asking up s (λ up s. or_404 job_body s (get_job id s.db))
  route fresh up (retries id) s =
      asking up s
        (λ up s. job_reply 202 (status_of 409 404) s (resubmit_job app.settings now fresh id s.db))
  route fresh up (cancels id) s =
      asking up s (λ up s. job_reply 200 (status_of 404 500) s (request_cancel now id s.db))

  abbrev pub passed : ℕ → List Bool → Request → Service → Option ℕ → Response × Service
  passed fresh up request s (some code) = refused code s
  passed fresh up request s none = route fresh up request s

  unfoldable pub handle : Headers → ℕ → List Bool → Request → Service → Response × Service
  unfolding require_token route
  handle headers fresh up request s =
      passed fresh up request s (require_token app.api_token headers)
