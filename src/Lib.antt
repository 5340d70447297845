-- ===== src/Lib.antt =====
-- A model of the container manager: an HTTP service that keeps users' containers, and the jobs that
-- change them, in PostgreSQL, and has a pool of workers carry the jobs out through Docker.
--
-- A request for a container (internal/service/container_svc.go) checks who asks and what the container
-- is doing, stores a job and sends it into a channel. A worker (internal/service/worker.go) takes the
-- job, marks its row, calls Docker, writes the container's new state and then how the job ended. A
-- cleaner (internal/service/job_cleaner.go) deletes old jobs. A start of the process (app/handler.go)
-- fails the jobs that the last run left running and puts the pending ones back into the channel.
--
-- Which file models what:
--   * Errors, Errors/Chain: pkg/errors/errors.go, internal/domain/errors.go, and errors.Is and errors.As.
--   * Domain: the entities of internal/domain.
--   * FilePath: what is used of Go's path/filepath.
--   * Db: internal/repository/postgres/tx.go (WithTx, getQueryable) over the tables of migrations/.
--   * Repo/Containers, Repo/Jobs, Repo/Files, Repo/Users: the files *_repo.go beside it. Repo/Paging is
--     their LIMIT and OFFSET.
--   * Service/Containers: internal/service/container_svc.go (Create, List, Get, Start, Stop, Delete).
--   * Service/Locks: containerLock and fileLock of the two services, and the calls that take the mutexes. A
--     server with a TxManager is modelled without them, which allows more interleavings.
--   * Service/Files: internal/service/file_svc.go (Upload, List, Delete).
--   * Auth: internal/service/auth_svc.go, pkg/jwt/jwt.go and internal/handler/middleware/auth.go.
--   * Http, Http/Answers, Http/Handlers: internal/handler/*.go, what is read of a request, the answers,
--     the handlers and the router. Http/Limits: middleware/max_bytes.go, the bodies before they are read.
--   * Service/Jobs: job_svc.go (GetJob) and job_cleaner.go (run).
--   * Worker: internal/service/worker.go (process and all that it calls).
--   * Docker: internal/repository/docker/container_runtime.go, the adapter that the worker calls.
--   * App: the recovery in NewHandler of app/handler.go; Startup: the rest of it, the configuration from
--     the environment and the server that it starts.
--   * Log: pkg/logger/logger.go and internal/handler/middleware/logging.go.
--   * Process: cmd/server/main.go and the Stop of app/handler.go, of the worker and of the cleaner, around
--     the running server. The process and its shutdown take their steps in Act.
--   * System: all of these as one running server, a relation of steps. System/Lifecycle is its abstract
--     view, a status for each container; System/Guarded is about what a worker finds and
--     System/Attended about rows that are running. System/Statements has the guarded transactions
--     statement by statement, System/Composed whole calls of the service and the worker as runs.
-- Below each of them stand the modules with its theorems; Tests holds runs on concrete data.
--
-- How the code is modelled. A method is a function from a state to a result and a state (Exec); what it
-- wrote before an error stays written. The database is its tables, whether a transaction is open or
-- aborted, and a list that says which of the coming statements fail and how, so that a theorem about
-- every database is one about every failure. `healthy` is a database in which none fails. A statement
-- that fails inside a transaction aborts it, as in PostgreSQL. A table lists its rows, the newest first;
-- a query that
-- orders its rows is a stable sort, for FindByUserID of rows in any order: ORDER BY leaves open how rows of
-- the same time follow each other, and that order is an input of the call. Docker, os.MkdirAll and errdefs are a parameter over a
-- state of their own: `Runtime` for the worker, of which its theorems assume nothing, and below the
-- adapter `Client` and `Os`, of which Docker/Contract and the theorems say what is assumed. The ids of
-- uuid.New, the clock, the environment and the end of a context are inputs of a call. So are a file
-- system (`FileSystem`, with http.DetectContentType), the jwt library (`Jwt`) and the comparison of
-- bcrypt; of these a theorem assumes only what it names, that a signed token reads back until it
-- expires, that a body is longer than a file in it, that a path has what was written to it last. What gin reads of a request (route, parameters, bound body, form) is the `Request`; an answer
-- is its status and its gin.H.
--
-- The steps of System: the guarded transaction of a request is one step; sendJob, each part of a
-- worker's work, a tick and a restart are steps of their own and come in any order. In System/Statements
-- that transaction is in pieces: it waits for the lock of the row, reads, looks for an active job, saves
-- and commits, while other transactions do the same. A lock that FOR UPDATE takes is held until the end
-- of the transaction, and a statement sees what is committed when it begins. The statements of recovery
-- and those of one job's work are a step too, which changes no result about the job table, since the work
-- touches none of its rows. One thing is taken for granted: when Create stores the job of its new
-- container, no job of that container is active yet. The two inserts of Create are in no transaction;
-- Service/Containers/Races shows what happens otherwise.
--
-- Of net/http, Process relies on what its documentation says: Shutdown closes the listener, waits for the
-- requests that have begun and fails when its context ends, and ListenAndServe returns ErrServerClosed
-- once it has been called. A closed channel can be read at any time, and a select takes any case that is
-- ready.
--
-- Bounds. A time is a natural number of nanoseconds, on which nothing wraps. `page` and `limit` are
-- bit patterns of a 64-bit int and their arithmetic wraps. The retry runs the three tries of the
-- source. The search for the migrations folder has one round of fuel for each element of the working
-- directory and one more, which is enough for an absolute path, as Getwd gives one. There is no
-- other fuel.
--
-- Not modelled: the foreign keys and column lengths of the schema, whose violation is a statement
-- that fails; the JSON of a container's command, taken to come back as it was stored; time that the
-- database rounds; log lines but for those of requests; the pauses between retries; the matching
-- of routes by gin; that a server without a TxManager runs several requests at a time.
mod Prelude
pub mod Errors
pub mod Exec
pub mod Domain
pub mod FilePath
pub mod Db
pub mod Repo
pub mod Service
pub mod Worker
pub mod Docker
pub mod Auth
pub mod Http
pub mod Log
pub mod App
pub mod System
pub mod Startup
pub mod Process
mod Tests
