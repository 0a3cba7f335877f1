-- ===== src/Lib.antt =====
-- RepoMesh keeps search indexes of source repositories. Workers on several machines share one
-- PostgreSQL database through repomesh/coordination: the API submits and cancels jobs, a watcher
-- submits jobs for repositories that changed, and workers claim jobs, renew their leases, write
-- the index under a mutation guard and finish or retry. Indexing finds the files of a
-- repository, cuts each into chunks and keeps a SQLite index and a vector store in step with
-- them. This library models the coordination, the routes over it, answers, the watcher's rounds,
-- the discovery of files, the chunking, the indexer and the repositories and files of the SQLite
-- index.
--
-- Files (source paths are below src/repomesh):
--   Prelude, Prelude/*             shared tests, lists over the native numbers, sorting, signed integers
--   Table, Table/Finds             a table with a primary key, and the first row that a test finds
--   Coordination/Schema            the rows of coordination/migrations/*.sql and of models.py, the
--                                  settings of config.py that the coordination reads, outcomes
--   Coordination/Jobs              repository.py: submit_job, get_job, resubmit_job, request_cancel
--   Coordination/Workers           repository.py: register_worker, heartbeat_worker, stop_worker,
--                                  and the status that list_workers shows
--   Coordination/Claims            repository.py: claim_job
--   Coordination/Leases            repository.py: _owned, renew_lease, update_progress,
--                                  mutation_guard, _finish and its callers, schedule_retry
--   Coordination/Watches           watches.py: ensure, set_enabled, record_error, observe, and the
--                                  state that list shows
--   Coordination/Reports           repository.py: latest_job, list_jobs, job_history, list_workers
--                                  and snapshot; Pages has proofs
--   Coordination/Legacy            repository.py: import_legacy_jobs, with proofs in Legacy/Rows, Imports
--   Coordination/World             histories: any transactions of any processes, in any order
--   Coordination/Invariant, Evolution, Claimed, Idempotency, Sessions, Endings, Successors,
--   Debounce, Claims/Order, Claims/Choice, World/*   the proofs
--   Chunking/Texts                 what chunking.py uses of Python's str
--   Chunking/Language, Tree        chunking.py: LANGUAGES, SYMBOL_NODES, the walk and the sort of
--                                  _tree_sitter_chunks, _find_identifier
--   Chunking/Windows, Chunker      chunking.py: _line_windows, _make_chunk, chunk
--   Chunking/Walk, Cover, Sizes, Whole   the proofs
--   Storage/Files                  db.py: the operations on files, chunks and pending deletions
--   Storage/Repositories           db.py: the operations on repositories
--   Storage/Lookup, Chunks         the proofs
--   Indexing/Exec, Paths, Services exceptions as outcomes, the sets of paths, and the vector store,
--                                  the disk and the embedder as parameters
--   Indexing/Indexer               indexing.py: RepositoryIndexer.index
--   Indexing/Ensures, Frame, Quiet, Counting, Counts, Sync, Sync/*   the proofs
--   Discovery/Filters, Files       repositories.py
--   Discovery/Accepted, Validated  the proofs
--   Watching/Fingerprint, Watcher  watcher.py: repository_fingerprint and run_once
--   Watching/Looks                 what a round does, as a relation on histories
--   Watching/Refines, Agrees       the proofs
--   Api/Answer                     api.py: answer; models.py: Citation.label
--   Api/Routes                     api.py: require_token and the routes on repositories, watches
--                                  and jobs
--   Api/Wait                       jobs.py: wait, with its proof
--   Api/Evidence, Codes            the proofs
--   Working/Execute                worker.py: execute, around the indexer
--   Working/Releases               the proofs
--   Tests/*                        concrete runs of the operations
--
-- How the code corresponds. An operation takes the tables and returns an outcome with the new
-- tables; an exception rolls its transaction back, so `after` keeps the old tables. Each
-- transaction is one step: PostgreSQL serialises those that write the same row, and a claim
-- skips the rows that another transaction has locked, which are the parameter `Locks`. A
-- transaction reads the clock once, as `now`, where the SQL calls clock_timestamp() for each
-- column. Times and durations are microseconds. Identifiers, idempotency keys, fingerprints and
-- paths are numbers that stand for texts with their order, 0 for the empty text; messages are
-- lists of characters. The results of uuid4 and random.uniform and the text of the error of a
-- job that is out of attempts are parameters, so the theorems hold for any. An INSERT checks the
-- primary key and the reference to `repository_execution`, and a claim also the index of running
-- jobs; the other unique indexes are not checked, so the model accepts at least what the
-- database accepts. The column `kind`, which is always 'index', and `progress_total`, a copy of
-- total_files, are left out. Where SQL has a query without ORDER BY, the first row in the order
-- of insertion is meant, and the unique columns it tests leave no choice.
--
-- Chunking is a pure function of a file's text. tree-sitter's parser, sha256, uuid5, json.dumps
-- and the test of IMPORT_PATTERN are parameters; a tree is what the code reads of tree-sitter's
-- nodes. The list.sort of the candidates by their key is a stable insertion sort, since sorting
-- is Python's own. The chunker's limits are natural numbers, so a negative setting is left out,
-- and a path does not end in a slash. The SQLite index is a pure state as well: its operations
-- run under one lock and each commits or rolls back as a whole, with `none` for an
-- IntegrityError. Other columns' constraints are not checked.
--
-- The indexer is a program over its index, its vector store and the counts, which returns, stops
-- for LeaseLost or IndexCancelled, or fails. Each callback (cancelled, progress, guard and its
-- check) takes the next of a given list of answers, so every place at which a run can be stopped
-- is reached by some list; the exit of a guard may stop a run too. Each file is read once. The
-- vector store's laws are those of Qdrant, which has one point for an id and filters deletions
-- by the payload. With the SQLite vector store the indexer's calls do nothing, since the vectors
-- are columns of the chunks' own rows. Of the exceptions of SQLite only IntegrityError is
-- modelled.
--
-- A path of pathlib is the list of its parts. Resolution of links, git and reading are
-- parameters, and resolution does not raise. The watcher's transactions are steps of
-- Coordination/World, with other processes' steps before each ensure, the list and each
-- observation; a lost connection is left out. The worker's thread of heartbeats shows by the two
-- events that it sets. A route is the sequence of its transactions, with one reading of the
-- clock, behind the token check: each transaction of PostgreSQL takes the next of a list of
-- answers, and one that is not answered ends the route with 503, what was committed before it
-- kept. What other processes do between the two transactions of set_enabled is a parameter. An
-- operation's exception becomes the status that the route gives it, 503 for an error of
-- PostgreSQL and 500 for any other. A wait runs over a list of readings of the tables and the
-- clock.
--
-- Bounds. The walk of a tree has fuel for as many nodes as the tree has, and a line window loop
-- for as many rounds as there are lines; both are shown to reach the end. The loop of claim_job
-- has the source's own bound of 32 rounds. Durations are natural numbers, so a delay cannot be
-- negative; the source's settings are positive.
--
-- Not modelled: migrate, which runs the SQL files, the full-text search and the query log of the
-- SQLite index, retrieval, the providers, the routes health, capabilities, search, embed and
-- metrics, the worker's loop and its heartbeats, the settings' validation, and everything
-- outside src/repomesh.
pub mod Prelude
pub mod Table
pub mod Coordination
pub mod Chunking
pub mod Storage
pub mod Indexing
pub mod Discovery
pub mod Watching
pub mod Api
pub mod Working
pub mod Tests
