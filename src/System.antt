-- ===== src/System.antt =====
-- The running server: requests, the job channel, the worker pool, the cleaner and restarts, as
-- interleaved steps. A request commits its guard in one step and then waits in sendJob as a sender; a
-- worker receives, marks, works and settles in a step each. The mutexes of the service
-- are left out, so that they forbid nothing.
pub mod Counting
pub mod Rows
pub mod Changes
pub mod Invariant
pub mod Sending
pub mod Working
pub mod Exclusion
pub mod Runs
pub mod Progress
pub mod Lifecycle
pub mod Guarded
pub mod Attended
pub mod Statements
pub mod Composed
use go_container_manager.Prelude.{
  ℕ, zero, suc, ◌≤◌, ◌<◌, String, Bool, true, false, ◌≡◌, Option, List, [], ◌∷◌, ◌++◌, map, length,
  count,
}
use go_container_manager.Errors.{AppError}
use go_container_manager.Exec.{Result, ok, err}
use go_container_manager.Domain.{
  ContainerStatus, Job, JobType, is_running, start_container, stop_container, delete_container,
}
use go_container_manager.Db.{Db}
use go_container_manager.Repo.Jobs
use go_container_manager.Service.Containers
use go_container_manager.Service.Containers.{
  Inputs, create_job, run_guarded, guard, start_guard, stop_guard, delete_guard, store_container,
  enroll, queue_capacity,
}
use go_container_manager.Service.Containers.Operations.{Operation, starts, stops, deletes, job_type}
use go_container_manager.Service.Jobs.{clean}
use go_container_manager.Worker
use go_container_manager.Worker.{Runtime, Clock, Host, run_job, marked, ended, store_job}
use go_container_manager.App.{recover}

pub data Stage : Type 0 where
  received ready : Stage
  worked : Result (Unit {0}) → Stage

-- A job in the hands of a worker.
pub record Task : Type 0 where
  pub job : Job
  pub stage : Stage

-- A Create that has stored its container and not yet its job.
pub record Creation : Type 0 where
  pub inputs : Inputs
  pub user_id : String

pub record System (S : Type 0) : Type 0 where
  pub db : Db
  pub outside : S
  pub creating : List Creation
  pub senders : List Job
  pub queue : List Job
  pub workers : List Task

-- The guarded transaction of Start, Stop or Delete.
unfoldable pub admit : Operation → String → String → Job → Db → Result (Unit {0}) × Db
admit starts user_id id job = run_guarded true (start_guard true user_id id job)
admit stops user_id id job = run_guarded true (stop_guard true user_id id job)
admit deletes user_id id job = run_guarded true (delete_guard true user_id id job)

-- The jobs that are at work, in the channel, or waiting to be sent.
abbrev pub on_way : List Task → List Job → List Job → List Job
on_way workers queue senders = map (λ t. t.job) workers ++ queue ++ senders

abbrev pub played : {S : Type 0} → System S → List Job
played s = on_way s.workers s.queue s.senders

abbrev pub with_sender : Result (Unit {0}) → Job → List Job → List Job
with_sender (ok _) job js = job ∷ js
with_sender (err _) job js = js

abbrev pub with_creation : Result (Unit {0}) → Creation → List Creation → List Creation
with_creation (ok _) c cs = c ∷ cs
with_creation (err _) c cs = cs

abbrev pub with_enrolled : Result Job → List Job → List Job
with_enrolled (ok job) js = job ∷ js
with_enrolled (err _) js = js

module _ {S : Type 0} (rt : Runtime S) (service : Containers.Config) (config : Worker.Config)
    (pool_size : ℕ) where
  abbrev pub requested : Operation → Inputs → String → String → System S → System S
  requested op x user_id id s =
      let job = create_job x user_id id (job_type op) in
      let (r, db) = admit op user_id id job s.db in
      record s { db = db; senders = with_sender r job s.senders }

  abbrev pub submitted : Inputs → String → String → String → List String → System S → System S
  submitted x user_id name env command s =
      let (r, db) = store_container service x user_id name env command s.db in
      record s {
        db = db;
        creating = with_creation r (record { inputs = x; user_id = user_id }) s.creating;
      }

  abbrev pub enrolled : List Creation → Creation → System S → System S
  enrolled others c s =
      let (r, db) = enroll c.inputs c.user_id s.db in
      record s { db = db; creating = others; senders = with_enrolled r s.senders }

  abbrev pub recovered : System S → System S
  recovered s =
      let (db, queue) = recover s.db in
      record s { db = db; creating = []; senders = []; queue = queue; workers = [] }

  abbrev pub done_work : Clock → Job → System S → Result (Unit {0}) × Host S
  done_work clock job s =
      run_job rt config clock job.type job (record { db = s.db; outside = s.outside })

  pub data Step (s : System S) : System S → Type 0 where
    -- Start, Stop or Delete, up to sendJob.
    request :
        (op : Operation) (x : Inputs) (user_id id : String) → Step s (requested op x user_id id s)
    -- Create stores the container, whose id of uuid.New no active job targets,
    submit :
        (x : Inputs) (user_id name env : String) (command : List String)
        → count (Jobs.active_on x.container_id) s.db.jobs ≡ 0
        → Step s (submitted x user_id name env command s)
    -- and later its job. No other request has made the new container busy meanwhile.
    enlist :
        (before after : List Creation) (c : Creation)
        → s.creating ≡ before ++ c ∷ after
        → count (Jobs.active_on c.inputs.container_id) s.db.jobs ≡ 0
        → Step s (enrolled (before ++ after) c s)
    -- sendJob puts its job into the channel, if there is room.
    send :
        (before after : List Job) (job : Job)
        → s.senders ≡ before ++ job ∷ after
        → length s.queue < queue_capacity
        → Step s (record s { senders = before ++ after; queue = s.queue ++ job ∷ [] })
    -- The context of a request ends first.
    give_up :
        (before after : List Job) (job : Job)
        → s.senders ≡ before ++ job ∷ after
        → Step s (record s { senders = before ++ after })
    -- An idle worker receives the oldest job.
    receive :
        (job : Job) (rest : List Job)
        → s.queue ≡ job ∷ rest
        → length s.workers < pool_size
        → Step s (record s {
          queue = rest;
          workers = record { job = job; stage = received } ∷ s.workers;
        })
    -- It marks the job as running,
    mark :
        (before after : List Task) (job : Job)
        → s.workers ≡ before ++ record { job = job; stage = received } ∷ after
        → Step s (record s {
          db = store_job (marked job) s.db;
          workers = before ++ record { job = marked job; stage = ready } ∷ after;
        })
    -- works,
    work :
        (before after : List Task) (job : Job) (clock : Clock)
        → s.workers ≡ before ++ record { job = job; stage = ready } ∷ after
        → Step s (record s {
          db = (done_work clock job s).1.db;
          outside = (done_work clock job s).1.outside;
          workers =
              before ++ record { job = job; stage = worked (done_work clock job s).0 } ∷ after;
        })
    -- and stores how it ended.
    settle :
        (before after : List Task) (job : Job) (r : Result (Unit {0})) (now : ℕ)
        → s.workers ≡ before ++ record { job = job; stage = worked r } ∷ after
        → Step s (record s { db = store_job (ended now r job) s.db; workers = before ++ after })
    -- The cleaner ticks.
    tick : (now : ℕ) → Step s (record s { db = clean now s.db })
    -- The process ends at any point and starts again.
    restart : Step s (recovered s)

  pub data Reach (s : System S) : System S → Type 0 where
    here : Reach s s
    next : {t u : System S} → Reach s t → Step t u → Reach s u
