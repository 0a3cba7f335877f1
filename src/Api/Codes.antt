-- ===== src/Api/Codes.antt =====
-- What a response's status tells of the tables, and who gets one.
use repomesh.Prelude.{
  ◌==◌, false, ◌∷◌, ℕ, ◌≡◌, ◌≢◌, Bool, true, false, ◌⊎◌, Option, some, [], ◌∷◌, leb, List,
}
use repomesh.Coordination.Schema.{Db}
use repomesh.Coordination.Watches.{ensure_watch, set_enabled}
use repomesh.Chunking.Texts.{Text}
use repomesh.Storage.Files.{Repository, Index}
use repomesh.Storage.Repositories.{add_repository}
use repomesh.Api.Routes.{
  App, Headers, Service, Request, registers, switches_watch, Response, supplied_by,
}

module _ (app : App) (now : ℕ) (between : Db → Db) where
  -- What a route leaves that PostgreSQL stops answering: only the routes of several transactions
  -- leave more than they found.
  pub data Left : Request → Service → Service → Type 0 where
    nothing : (request : Request) (s : Service) → Left request s s
    added_only :
        (path : Text) (name : Option Text) (auto_index : Option Bool) (x : Repository)
        (index : Index) (s : Service)
        → add_repository x s.index ≡ some index
        → Left (registers path name auto_index) s (record s { index = index })
    ensured_only :
        (id : Text) (enabled : Bool) (s : Service)
        → Left (switches_watch id enabled) s (record s {
          db = between (ensure_watch app.settings (app.number id) (some enabled) s.db);
        })
    switched_only :
        (id : Text) (enabled : Bool) (s : Service)
        → Left
            (switches_watch id enabled)
            s
            (record s { db = set_enabled app.settings now (app.number id) enabled between s.db })

  -- An error but 503 leaves the service as it was, 503 what `Left` says.
  abbrev Fine : Request → Service → Response × Service → Type 0
  Fine request s (response, new) =
      (leb 400 response.status_code ≡ true → (response.status_code == 503) ≡ false → new ≡ s)
      × ((response.status_code == 503) ≡ true → Left request s new)

  module _ (path : Text) (name : Option Text) (auto_index : Option Bool) (up : List Bool)
      (s : Service) where
    abbrev Registered : Response × Service → Type 0
    Registered = Fine (registers path name auto_index) s

-- Refused for its token, whatever is asked.
abbrev ShutOut : Service → Response × Service → Type 0
ShutOut s (response, new) =
    (new ≡ s) × ((response.status_code ≡ 401) ⊎ (response.status_code ≡ 500))

pub record Guarded (app : App) (now : ℕ) (between : Db → Db) (request : Request) (headers : Headers)
    (s : Service) (answered : Response × Service) : Type 0 where
  pub keeps :
      leb 400 answered.0.status_code ≡ true
      → (answered.0.status_code == 503) ≡ false
      → answered.1 ≡ s
  pub leaves : (answered.0.status_code == 503) ≡ true → Left app now between request s answered.1
  pub shut_out :
      app.api_token ≢ []
      → supplied_by headers.authorization headers.x_api_token ≢ some app.api_token
      → (answered.1 ≡ s) × ((answered.0.status_code ≡ 401) ⊎ (answered.0.status_code ≡ 500))
