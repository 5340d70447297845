-- ===== src/Service/Containers.antt =====
-- internal/service/container_svc.go. What the service takes from outside the program in one call (the
-- ids of uuid.New, the clock, whether the context ends before the job is sent) are `Inputs`.
pub mod Guards
pub mod Faults
pub mod Operations
pub mod Failures
pub mod Blocked
pub mod Requests
pub mod Reads
pub mod Races
use go_container_manager.Prelude.{
  ℕ, String, Bool, true, false, not, ◌||◌, Option, none, some, List, [], ◌∷◌, ◌++◌, ◌==◌, length,
  leb, ltb, if◌then◌else◌,
}
use go_container_manager.Errors.{
  AppError, Error, app, new, err_forbidden, err_container_not_found, err_container_name_dup,
  err_invalid_environment, err_service_unavailable,
}
use go_container_manager.Errors.Chain.{is_not_found, is_duplicate, assert_app_error}
use go_container_manager.Exec.{
  Result, ok, err, Exec, pure, raise, lift, attempt, unless, ◌>>=◌, ◌>>◌, is_ok,
}
use go_container_manager.Domain.{
  Container, ContainerStatus, Job, JobType, create_container, start_container, stop_container,
  delete_container, pending, is_running,
}
use go_container_manager.Db.{ContainerRow, Db, with_tx}
use go_container_manager.Repo.Containers
use go_container_manager.Repo.Jobs
use go_container_manager.Repo.Paging.{is_negative}

-- Whether there is a TxManager, and the whitelist of environments with their images.
pub record Config : Type 0 where
  pub tx_manager : Bool
  pub env_map : List (String × String)

pub record Inputs : Type 0 where
  pub container_id : String
  pub job_id : String
  pub now : ℕ
  pub expired : Bool

-- The database, and what `jobChan` holds.
pub record Server : Type 0 where
  pub db : Db
  pub queue : List Job

-- make(chan *domain.Job, 100)
abbrev pub queue_capacity : ℕ
queue_capacity = 100

abbrev pub on_db : {A : Type 0} → Exec Db A → Exec Server A
on_db m s = ((m s.db).0, record s { db = (m s.db).1 })

-- `m[k]` and whether it is there
unfoldable pub lookup : String → List (String × String) → Option String
lookup k [] = none
lookup k ((j, v) ∷ m) = if j == k then some v else lookup k m

abbrev pub is_none : {A : Type 0} → Option A → Bool
is_none none = true
is_none (some _) = false

unfoldable pub create_job : Inputs → String → String → JobType → Job
create_job x user_id target type = record {
  id = x.job_id;
  user_id = user_id;
  target_resource_id = target;
  type = type;
  status = pending;
  error_message = none;
  created_at = x.now;
  completed_at = none;
}

-- The `select` of sendJob: it sends if the channel has room, unless the context is done.
unfoldable pub send_job : Bool → Job → Exec Server (Unit {0})
send_job expired job s =
    if expired || leb queue_capacity (length s.queue)
    then (err (app err_service_unavailable), s)
    else (ok tt, record s { queue = s.queue ++ job ∷ [] })

unfoldable pub new_container : Inputs → String → String → String → List String → Container
new_container x user_id name env command = record {
  id = x.container_id;
  user_id = user_id;
  name = name;
  environment = env;
  command = command;
  status = ContainerStatus.created;
  mount_path = "/workspace";
  docker_container_id = "";
  created_at = x.now;
  updated_at = x.now;
}

abbrev pub or_name_dup : Result (Unit {0}) → Result (Unit {0})
or_name_dup (ok v) = ok v
or_name_dup (err e) = if is_duplicate e then err (app err_container_name_dup) else err e

-- The row of the new container, in no transaction.
unfoldable pub store_container :
    Config → Inputs → String → String → String → List String → Exec Db (Unit {0})
unfolding lookup new_container
store_container cfg x user_id name env command =
    unless (is_none (lookup env cfg.env_map)) (app err_invalid_environment) do
      saved ← attempt (Containers.save (new_container x user_id name env command))
      lift (or_name_dup saved)

-- Then the row of its job.
unfoldable pub enroll : Inputs → String → Exec Db Job
unfolding create_job
enroll x user_id = do
  Jobs.save (create_job x user_id x.container_id create_container)
  pure (create_job x user_id x.container_id create_container)

unfoldable pub create : Config → Inputs → String → String → String → List String → Exec Server Job
unfolding store_container enroll send_job
create cfg x user_id name env command = do
  on_db (store_container cfg x user_id name env command)
  job ← on_db (enroll x user_id)
  send_job x.expired job
  pure job

-- `page` and `limit` are bit patterns of Go's `int`.
abbrev pub clamp_page : ℕ → ℕ
clamp_page page = if ltb page 1 || is_negative page then 1 else page

abbrev pub clamp_limit : ℕ → ℕ
clamp_limit limit =
    if ltb limit 1 || is_negative limit then 20 else if ltb 100 limit then 100 else limit

unfoldable pub list :
    (List ContainerRow → List ContainerRow) → String → ℕ → ℕ → Exec Db (List Container × ℕ)
list order user_id page limit =
    Containers.find_by_user_id order user_id (clamp_page page) (clamp_limit limit)

abbrev pub owned_by : String → Result Container → Result Container
owned_by user_id (ok c) = if c.user_id == user_id then ok c else err (app err_forbidden)
owned_by user_id (err e) = err (app err_container_not_found)

unfoldable pub get : String → String → Exec Db Container
get user_id container_id = do
  c ← attempt (Containers.find_by_id container_id)
  lift (owned_by user_id c)

unfoldable pub find_container_for_guard : Bool → String → Exec Db Container
find_container_for_guard true id = Containers.find_by_id_for_update id
find_container_for_guard false id = Containers.find_by_id id

-- The error of `runGuarded`: not found becomes the service's own error, any other stays.
abbrev pub guard_error : Error → Error
guard_error e =
    if is_not_found e
    then app err_container_not_found
    else elim (assert_app_error e) [ some a ↦ app a | none ↦ e ]

abbrev pub guard_result : Result (Unit {0}) → Result (Unit {0})
guard_result (ok v) = ok v
guard_result (err e) = err (guard_error e)

abbrev pub in_tx_if : Bool → Exec Db (Unit {0}) → Exec Db (Unit {0})
in_tx_if true fn = with_tx fn
in_tx_if false fn = fn

unfoldable pub run_guarded : Bool → Exec Db (Unit {0}) → Exec Db (Unit {0})
run_guarded tx fn = do r ← attempt (in_tx_if tx fn); lift (guard_result r)

abbrev pub start_conflict : AppError
start_conflict =
    new 409 "CONFLICT" "Container is already running or another operation is in progress"

abbrev pub stop_conflict : AppError
stop_conflict = new 409 "CONFLICT" "Container is not running or already stopped"

abbrev pub delete_conflict : AppError
delete_conflict =
    new 409 "CONFLICT"
      "Container must be stopped before deletion. Call POST /containers/{container_id}/stop first"

-- The closure that Start, Stop and Delete hand to runGuarded; they differ in the status that they
-- refuse and in the message.
unfoldable pub guard :
    (ContainerStatus → Bool) → AppError → Bool → String → String → Job → Exec Db (Unit {0})
guard refuses refusal tx user_id container_id job = do
  c ← find_container_for_guard tx container_id
  unless (not (c.user_id == user_id)) (app err_forbidden) do
    busy ← attempt (Jobs.find_pending_or_running_by_target container_id)
    unless (is_ok busy) (app refusal) (unless (refuses c.status) (app refusal) (Jobs.save job))

abbrev pub not_running : ContainerStatus → Bool
not_running status = not (is_running status)

unfoldable pub start_guard : Bool → String → String → Job → Exec Db (Unit {0})
start_guard = guard is_running start_conflict

unfoldable pub stop_guard : Bool → String → String → Job → Exec Db (Unit {0})
stop_guard = guard not_running stop_conflict

unfoldable pub delete_guard : Bool → String → String → Job → Exec Db (Unit {0})
delete_guard = guard is_running delete_conflict

unfoldable pub start : Config → Inputs → String → String → Exec Server Job
unfolding create_job send_job
start cfg x user_id container_id = do
  let job = create_job x user_id container_id start_container
  on_db (run_guarded cfg.tx_manager (start_guard cfg.tx_manager user_id container_id job))
  send_job x.expired job
  pure job

unfoldable pub stop : Config → Inputs → String → String → Exec Server Job
unfolding create_job send_job
stop cfg x user_id container_id = do
  let job = create_job x user_id container_id stop_container
  on_db (run_guarded cfg.tx_manager (stop_guard cfg.tx_manager user_id container_id job))
  send_job x.expired job
  pure job

unfoldable pub delete : Config → Inputs → String → String → Exec Server Job
unfolding create_job send_job
delete cfg x user_id container_id = do
  let job = create_job x user_id container_id delete_container
  on_db (run_guarded cfg.tx_manager (delete_guard cfg.tx_manager user_id container_id job))
  send_job x.expired job
  pure job
