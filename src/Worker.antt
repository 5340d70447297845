-- ===== src/Worker.antt =====
-- internal/service/worker.go: what a worker does with a job. Docker and the operating system are the
-- `Runtime`, over a state of their own.
pub mod Retry
pub mod Steps
pub mod Expected
pub mod Results
pub mod Process
pub mod Kept
pub mod Outcome
pub mod Touches
use Prim.Native.String.{◌++◌}
use go_container_manager.Prelude.{
  ℕ, zero, suc, ◌*◌, ◌/◌, String, Bool, true, false, not, ◌&&◌, Option, none, some, List, ◌==◌,
  if◌then◌else◌,
}
use go_container_manager.Errors.{Error, plain, wrapped, error_text}
use go_container_manager.Exec.{
  Result, ok, err, Exec, pure, raise, lift, attempt, unless, ◌>>=◌, ◌>>◌,
}
use go_container_manager.Domain.{
  Container, ContainerStatus, Job, JobType, JobStatus, create_container, start_container,
  stop_container, delete_container, other_type, success, failed, second,
}
use go_container_manager.FilePath.{join}
use go_container_manager.Db.{Db}
use go_container_manager.Repo.Containers
use go_container_manager.Repo.Jobs
use go_container_manager.Service.Containers.{lookup}

-- domain.ContainerRuntime, os.MkdirAll, and the classification of Docker's errors by errdefs.
pub record Runtime (S : Type 0) : Type 0 where
  pub create_and_start : Container → String → String → Exec S String
  pub start : String → Exec S (Unit {0})
  pub stop : String → Exec S (Unit {0})
  pub remove : String → Exec S (Unit {0})
  pub inspect_state : String → Exec S String
  pub wait_exit : String → ℕ → S → Bool × S
  pub mkdir_all : String → Exec S (Unit {0})
  pub is_not_found : Error → Bool
  pub is_not_modified : Error → Bool

pub record Config : Type 0 where
  pub env_map : List (String × String)
  pub storage_root : String
  pub storage_host_path : String

-- NewWorker: with no host path of its own the storage root serves.
unfoldable pub new_worker : List (String × String) → String → String → Config
new_worker env_map storage_root storage_host_path = record {
  env_map = env_map;
  storage_root = storage_root;
  storage_host_path = if storage_host_path == "" then storage_root else storage_host_path;
}

-- The clock, where a container row is written and where the job ends.
pub record Clock : Type 0 where
  pub updated : ℕ
  pub completed : ℕ

pub record Host (S : Type 0) : Type 0 where
  pub db : Db
  pub outside : S

abbrev pub update_retries : ℕ
update_retries = 3

-- 500 * time.Millisecond
abbrev pub state_wait_timeout : ℕ
state_wait_timeout = second / 2

-- A Go `error` that may be nil.
abbrev pub to_result : Option Error → Result (Unit {0})
to_result none = ok tt
to_result (some e) = err e

-- The loop of retryUpdate and retryDelete with its `lastErr`; the pauses between the tries change
-- nothing here.
unfoldable pub retry : {S : Type 0} → ℕ → Option Error → Exec S (Unit {0}) → Exec S (Unit {0})
retry zero last m s = (to_result last, s)
retry (suc n) last m s = elim (m s).0 [
  | ok _ ↦ (ok tt, (m s).1)
  | err e ↦ retry n (some e) m (m s).1
]

unfoldable pub retry_update : Container → Exec Db (Unit {0})
unfolding retry
retry_update c = retry update_retries none (Containers.update c)

unfoldable pub retry_delete : String → Exec Db (Unit {0})
unfolding retry
retry_delete id = retry update_retries none (Containers.delete id)

abbrev pub or_image : Option String → String
or_image none = ""
or_image (some image) = image

abbrev pub no_docker_id : Error
no_docker_id = plain "container has no Docker container ID (create job may have failed)"

-- "running" is Running, any other state that Docker reports is Exited.
abbrev pub inspected : Result String → ContainerStatus
inspected (ok state) =
    if state == "running" then ContainerStatus.running else ContainerStatus.exited
inspected (err _) = ContainerStatus.running

abbrev pub missing_text : String → String
missing_text id = "Docker container " ++ id ++ " not found (may have been removed)"

module _ {S : Type 0} where
  abbrev pub on_db : {A : Type 0} → Exec Db A → Exec (Host S) A
  on_db m h = ((m h.db).0, record h { db = (m h.db).1 })

  abbrev pub on_host : {A : Type 0} → Exec S A → Exec (Host S) A
  on_host m h = ((m h.outside).0, record h { outside = (m h.outside).1 })

  abbrev pub after_wait : Runtime S → String → Bool × S → ContainerStatus × S
  after_wait rt id (true, s) = (ContainerStatus.exited, s)
  after_wait rt id (false, s) = (inspected (rt.inspect_state id s).0, (rt.inspect_state id s).1)

  unfoldable pub sync_container_state : Runtime S → String → S → ContainerStatus × S
  sync_container_state rt id s = after_wait rt id (rt.wait_exit id state_wait_timeout s)

  -- A call that cannot fail.
  abbrev pub certainly : {A : Type 0} → (S → A × S) → Exec S A
  certainly m s = (ok (m s).0, (m s).1)

  unfoldable pub process_create : Runtime S → Config → Clock → Job → Exec (Host S) (Unit {0})
  process_create rt cfg clock job = do
    c ← on_db (Containers.find_by_id job.target_resource_id)
    on_host (rt.mkdir_all (join cfg.storage_root c.user_id))
    let image = or_image (lookup c.environment cfg.env_map)
    docker_id ← on_host (rt.create_and_start c image (join cfg.storage_host_path c.user_id))
    status ← on_host (certainly (sync_container_state rt docker_id))
    on_db (
        retry_update (record c {
          docker_container_id = docker_id;
          status = status;
          updated_at = clock.updated;
        }))

  -- The error of `runtime.Start`, wrapped where Docker does not know the container.
  abbrev pub start_result : Runtime S → String → Result (Unit {0}) → Result (Unit {0})
  start_result rt id (ok v) = ok v
  start_result rt id (err e) = err (if rt.is_not_found e then wrapped (missing_text id) e else e)

  unfoldable pub process_start : Runtime S → Config → Clock → Job → Exec (Host S) (Unit {0})
  process_start rt cfg clock job = do
    c ← on_db (Containers.find_by_id job.target_resource_id)
    unless (c.docker_container_id == "") no_docker_id do
      started ← attempt (on_host (rt.start c.docker_container_id))
      lift (start_result rt c.docker_container_id started)
      status ← on_host (certainly (sync_container_state rt c.docker_container_id))
      on_db (retry_update (record c { status = status; updated_at = clock.updated }))

  -- 304 Not Modified: the container had stopped already.
  abbrev pub stop_result : Runtime S → Result (Unit {0}) → Result (Unit {0})
  stop_result rt (ok v) = ok v
  stop_result rt (err e) = if rt.is_not_modified e then ok tt else err e

  unfoldable pub process_stop : Runtime S → Config → Clock → Job → Exec (Host S) (Unit {0})
  process_stop rt cfg clock job = do
    c ← on_db (Containers.find_by_id job.target_resource_id)
    stopped ← attempt (on_host (rt.stop c.docker_container_id))
    lift (stop_result rt stopped)
    on_db (retry_update (record c { status = ContainerStatus.exited; updated_at = clock.updated }))

  -- A container that Docker no longer has is removed from the database all the same.
  abbrev pub remove_result : Runtime S → Result (Unit {0}) → Result (Unit {0})
  remove_result rt (ok v) = ok v
  remove_result rt (err e) = if rt.is_not_found e then ok tt else err e

  unfoldable pub remove_from_docker : Runtime S → String → Exec (Host S) (Unit {0})
  remove_from_docker rt id = do
    removed ← attempt (on_host (rt.remove id))
    lift (remove_result rt removed)

  unfoldable pub process_delete : Runtime S → Config → Clock → Job → Exec (Host S) (Unit {0})
  unfolding remove_from_docker
  process_delete rt cfg clock job = do
    c ← on_db (Containers.find_by_id job.target_resource_id)
    if c.docker_container_id == "" then pure tt else remove_from_docker rt c.docker_container_id
    on_db (retry_delete job.target_resource_id)

  -- The `switch` of process, which has no default: a job of another type does nothing.
  unfoldable pub run_job : Runtime S → Config → Clock → JobType → Job → Exec (Host S) (Unit {0})
  run_job rt cfg clock create_container job = process_create rt cfg clock job
  run_job rt cfg clock start_container job = process_start rt cfg clock job
  run_job rt cfg clock stop_container job = process_stop rt cfg clock job
  run_job rt cfg clock delete_container job = process_delete rt cfg clock job
  run_job rt cfg clock (other_type _) job = pure tt

-- The job as it is marked before the work, and as it ends after it.
abbrev pub marked : Job → Job
marked job = record job { status = JobStatus.running }

abbrev pub final_status : Result (Unit {0}) → JobStatus
final_status (ok _) = success
final_status (err _) = failed

abbrev pub final_message : Result (Unit {0}) → Option String → Option String
final_message (ok _) msg = msg
final_message (err e) msg = some (error_text e)

abbrev pub ended : ℕ → Result (Unit {0}) → Job → Job
ended now r job = record job {
  status = final_status r;
  error_message = final_message r job.error_message;
  completed_at = some now;
}

-- An update of the job row whose error is logged and no more.
unfoldable pub store_job : Job → Db → Db
store_job job db = (Jobs.update job db).1

unfoldable pub process : {S : Type 0} → Runtime S → Config → Clock → Job → Host S → Host S
process rt cfg clock job h =
    let begun = record h { db = store_job (marked job) h.db } in
    let (r, done) = run_job rt cfg clock job.type (marked job) begun in
    record done { db = store_job (ended clock.completed r (marked job)) done.db }
