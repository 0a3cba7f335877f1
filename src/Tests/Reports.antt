-- ===== src/Tests/Reports.antt =====
-- Reports on the tables of the histories in Tests.Coordination.
use repomesh.Prelude.{none}
use repomesh.Coordination.Reports.{active, list_jobs}
use repomesh.Coordination.Pages.{IsPage, list_jobs-IsPage}
use repomesh.Tests.Coordination.{opened}

list_jobs-IsPage_example : IsPage none active 5 0 opened.db (list_jobs none active 5 0 opened.db)
list_jobs-IsPage_example = list_jobs-IsPage none active 5 0 opened.db
