-- ===== src/Tests/Legacy.antt =====
-- Imports of older jobs into empty tables.
use repomesh.Prelude.{◌≡◌, refl, false, none, some, List, [], ◌∷◌}
use repomesh.Table.{find_where, insert}
use repomesh.Coordination.Schema.{Db, ok, after, incremental, running, completed}
use repomesh.Coordination.Jobs.{no_stats}
use repomesh.Coordination.World.{start}
use repomesh.Coordination.Legacy.{OldJob, import_legacy_jobs}
use repomesh.Coordination.Legacy.Imports.{Imported, import_legacy_jobs-Imported}
use repomesh.Tests.Coordination.{settings}

abbrev interrupted : OldJob
interrupted = record {
  id = 4;
  repository_id = 2;
  mode = incremental;
  status = running;
  attempt = 3;
  idempotency_key = some 8;
  created_at = 1;
  updated_at = 2;
  cancel_requested = false;
  error = none;
  stats = no_stats;
  progress_done = 0;
}

-- The third row has the key of the first.
abbrev old_jobs : List OldJob
old_jobs =
    interrupted
    ∷ record interrupted { id = 5; idempotency_key = none; status = completed }
    ∷ record interrupted { id = 6 }
    ∷ []

abbrev imported : Db
imported = after start.db (import_legacy_jobs settings 9 old_jobs start.db)

imports_two : import_legacy_jobs settings 9 old_jobs start.db ≡ ok (2, imported)
unfolding import_legacy_jobs start find_where repomesh.Table.find_in insert
imports_two = refl

import_legacy_jobs-Imported_example : Imported settings 9 2 old_jobs start.db imported
import_legacy_jobs-Imported_example =
    import_legacy_jobs-Imported settings 9 2 old_jobs start.db imported imports_two
