-- ===== src/System/Lifecycle/Refines.antt =====
-- Every step of the server is a step of the abstract machine.
use go_container_manager.Prelude.{
  ℕ, String, true, ◌≡◌, ◌⊎◌, refl, inl, inr, List, ◌∷◌, arith, eq_iff, eq_refl, find, find-none_iff,
  count,
}
use go_container_manager.Domain.{ContainerStatus, Job, is_running}
use go_container_manager.Db.{ContainerRow, Db, statement}
use go_container_manager.Repo.Containers
use go_container_manager.Repo.Containers.{has_id, to_row}
use go_container_manager.Repo.Containers.Keys.{save_cases}
use go_container_manager.Repo.Jobs
use go_container_manager.Service.Containers.{
  Config, Inputs, new_container, store_container, enroll, start_guard, stop_guard, delete_guard,
  start_conflict, stop_conflict, delete_conflict, not_running,
}
use go_container_manager.Service.Containers.Faults.{IsIdle, guard-Admits_faults, run_guarded-error}
use go_container_manager.Service.Jobs.{clean}
use go_container_manager.Worker
use go_container_manager.Worker.{Runtime, Clock, store_job}
use go_container_manager.Worker.Touches.{run_job-keeps_at}
use go_container_manager.App.{recover}
use go_container_manager.Service.Containers.Operations.{Operation, starts, stops, deletes}
use go_container_manager.System.{
  System, Task, Step, admit, request, submit, enlist, send, give_up, receive, mark, work, settle,
  tick, restart,
}
use go_container_manager.System.Invariant.{Inv}
use go_container_manager.System.Lifecycle.{
  shelf, Change, nothing, Move, quiet, appears, works, others-IsKeptAt, own-IsKeptAt,
}

-- Calls that leave the container table alone.
pub admit-containers :
    (op : Operation) (user_id id : String) (job : Job) (db : Db)
    → IsIdle db
    → (admit op user_id id job db).1.containers ≡ db.containers
unfolding admit start_guard stop_guard delete_guard
admit-containers starts user_id id job db i = ground (
  arith,
  guard-Admits_faults is_running start_conflict user_id id job db i,
  run_guarded-error (start_guard true user_id id job) db,
)
admit-containers stops user_id id job db i = ground (
  arith,
  guard-Admits_faults not_running stop_conflict user_id id job db i,
  run_guarded-error (stop_guard true user_id id job) db,
)
admit-containers deletes user_id id job db i = ground (
  arith,
  guard-Admits_faults is_running delete_conflict user_id id job db i,
  run_guarded-error (delete_guard true user_id id job) db,
)

pub enroll-containers :
    (x : Inputs) (user_id : String) (db : Db) → (enroll x user_id db).1.containers ≡ db.containers
unfolding enroll Jobs.save statement
enroll-containers x user_id db = ground arith

pub store_job-containers : (job : Job) (db : Db) → (store_job job db).containers ≡ db.containers
unfolding store_job Jobs.update statement
store_job-containers job db = ground arith

pub clean-containers : (now : ℕ) (db : Db) → (clean now db).containers ≡ db.containers
unfolding clean Jobs.delete_expired statement
clean-containers now db = ground arith

pub recover-containers : (db : Db) → (recover db).0.containers ≡ db.containers
unfolding recover Jobs.mark_running_as_failed Jobs.find_pending_jobs statement
recover-containers db = ground arith

pub store_container_cases :
    (cfg : Config) (x : Inputs) (user_id name env : String) (command : List String) (db : Db)
    → let after = (store_container cfg x user_id name env command db).1 in
      let c = new_container x user_id name env command in
      (after.containers ≡ db.containers)
      ⊎ ((after.containers ≡ to_row c ∷ db.containers)
          × (count (has_id x.container_id) db.containers ≡ 0))
unfolding store_container new_container to_row
store_container_cases cfg x user_id name env command db =
    ground (arith, save_cases db (new_container x user_id name env command))

module _ (tasks : List Task) (before after : Db) where
  same : after.containers ≡ before.containers → Move tasks (shelf before) (shelf after)
  unfolding shelf
  same e = quiet (λ id. rw e refl)

  new_row :
      (r : ContainerRow)
      → after.containers ≡ r ∷ before.containers
      → count (has_id r.id) before.containers ≡ 0
      → r.status ≡ ContainerStatus.created
      → Move tasks (shelf before) (shelf after)
  unfolding shelf find
  new_row r e fresh st =
      appears r.id (ground (arith, find-none_iff (has_id r.id) before.containers))
        (rw (e, eq_refl r.id, st) refl) (λ other ne. rw e (ground (arith, eq_iff r.id other)))

module _ {S : Type 0} (rt : Runtime S) (service : Config) (config : Worker.Config)
    (pool_size : ℕ) where
  -- From a state that satisfies the invariant, every step of the server (that of a Create storing
  -- its job only where no job of its new container is active yet), whichever statements fail and
  -- whatever Docker answers, is a step of the abstract machine of container statuses: it changes
  -- no status, or lets one container that was not there appear as Created, or is the work of a job
  -- that a worker has at hand, which changes the status of that job's own container alone and only
  -- as its type allows (create and start: Running or Exited; stop: Exited; delete: removed).
  pub refines :
      (s t : System S)
      → Inv pool_size s
      → Step rt service config pool_size s t
      → Move s.workers (shelf s.db) (shelf t.db)
  refines s _ v (request op x user_id id) =
      same s.workers s.db _ (admit-containers op user_id id _ s.db v.idle)
  refines s _ v (submit x user_id name env command unused) =
      let after = (store_container service x user_id name env command s.db).1 in
      elim (store_container_cases service x user_id name env command s.db) [
        | inl e ↦ same s.workers s.db after e
        | inr (e, fresh) ↦
            unfold new_container Containers.to_row in
            new_row s.workers s.db after (to_row (new_container x user_id name env command)) e fresh
              refl
      ]
  refines s _ v (enlist first last c e unused) =
      same s.workers s.db _ (enroll-containers c.inputs c.user_id s.db)
  refines s _ v (send first last job e room) = quiet (λ id. refl)
  refines s _ v (give_up first last job e) = quiet (λ id. refl)
  refines s _ v (receive job rest e room) = quiet (λ id. refl)
  refines s _ v (mark first last job e) = same s.workers s.db _ (store_job-containers _ s.db)
  refines s _ v (work first last job clock e) =
      let id = job.target_resource_id in
      works first last job e
        (run_job-keeps_at rt config clock job id refl
          (λ db. Change job.type (shelf s.db id) (shelf db id)) job.type
          (own-IsKeptAt job.type id (shelf s.db id)) (record { db = s.db; outside = s.outside })
          nothing)
        (λ other ne.
          run_job-keeps_at rt config clock job id refl (λ db. shelf db other ≡ shelf s.db other)
            job.type (others-IsKeptAt job.type id other (shelf s.db other) ne)
            (record { db = s.db; outside = s.outside }) refl)
  refines s _ v (settle first last job r now e) =
      same s.workers s.db _ (store_job-containers _ s.db)
  refines s _ v (tick now) = same s.workers s.db _ (clean-containers now s.db)
  refines s _ v restart = same s.workers s.db _ (recover-containers s.db)
