-- ===== src/Tests/Working.antt =====
-- A worker that ends the job of the histories in Tests.Coordination.
use repomesh.Prelude.{false, some, [], ◌∷◌}
use repomesh.Coordination.Jobs.{no_stats}
use repomesh.Storage.Files.{registered}
use repomesh.Storage.Repositories.{CountedRepository}
use repomesh.Discovery.Files.{accepted}
use repomesh.Indexing.Exec.{returns}
use repomesh.Working.Execute.{Moment, body, execute}
use repomesh.Working.Releases.{Executed, execute-Executed}
use repomesh.Tests.Coordination.{settings, opened, job_10}
use repomesh.Tests.Discovery.{root}

abbrev moment : Moment
moment = record { lost_is_set = false; cancel_is_set = false; now = 6; jitter = 0; message = [] }

abbrev repository : CountedRepository
repository = record {
  row = record {
    id = b'i' ∷ [];
    name = [];
    root = b'/' ∷ b'r' ∷ [];
    commit_sha = [];
    status = registered;
    created_at = 1;
    updated_at = 1;
  };
  indexed_files = 0;
  indexed_chunks = 0;
}

execute-Executed_example :
    Executed moment job_10 (body (some repository) (accepted root) (returns no_stats)) opened.db (
      execute settings moment job_10 (some repository) (accepted root) (returns no_stats) opened.db)
execute-Executed_example =
    execute-Executed settings moment job_10 (some repository) (accepted root) (returns no_stats)
      opened.db
