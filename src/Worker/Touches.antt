-- ===== src/Worker/Touches.antt =====
-- Which container a job may touch, and with which status.
use go_container_manager.Prelude.{
  String, Bool, true, false, ◌≡◌, refl, inl, inr, arith, find, find-passes, eq_iff, Option-cases,
  none,
}
use go_container_manager.Exec.{ok}
use go_container_manager.Domain.{
  Container, ContainerStatus, Job, JobType, create_container, start_container, stop_container,
  delete_container, other_type,
}
use go_container_manager.Db.{Db, statement}
use go_container_manager.Repo.Containers
use go_container_manager.Repo.Containers.{has_id, scan_container}
use go_container_manager.Worker.{
  Runtime, Config, Clock, Host, process_create, process_start, process_stop, process_delete,
  run_job, retry_update, retry_delete, sync_container_state,
}
use go_container_manager.Worker.Retry.{retry-keeps}

-- The statuses that a job of each type may write.
abbrev pub settles : JobType → ContainerStatus → Bool
settles create_container ContainerStatus.running = true
settles create_container ContainerStatus.exited = true
settles start_container ContainerStatus.running = true
settles start_container ContainerStatus.exited = true
settles stop_container ContainerStatus.exited = true
settles _ _ = false

-- A property of the database that a job of this type for this container keeps, call by call.
pub record IsKeptAt (type : JobType) (id : String) (P : Db → Type 0) : Type 0 where
  pub by_find : (db : Db) → P db → P (Containers.find_by_id id db).1
  pub by_update :
      (c : Container) (db : Db)
      → c.id ≡ id
      → settles type c.status ≡ true
      → P db
      → P (Containers.update c db).1
  pub by_delete : (db : Db) → type ≡ delete_container → P db → P (Containers.delete id db).1

find_by_id-id :
    (id : String) (db : Db) (c : Container) → (Containers.find_by_id id db).0 ≡ ok c → c.id ≡ id
unfolding Containers.find_by_id statement
find_by_id-id id db c h = elim (Option-cases (find (has_id id) db.containers)) [
  | inl e ↦ ground arith
  | inr (r, e) ↦ ground (arith, find-passes (has_id id) db.containers {x = r}, eq_iff r.id id)
]

module _ {S : Type 0} (rt : Runtime S) where
  sync-settles_create :
      (id : String) (s : S) → settles create_container (sync_container_state rt id s).0 ≡ true
  unfolding sync_container_state
  sync-settles_create id s = ground arith

  sync-settles_start :
      (id : String) (s : S) → settles start_container (sync_container_state rt id s).0 ≡ true
  unfolding sync_container_state
  sync-settles_start id s = ground arith

module _ {S : Type 0} (rt : Runtime S) (cfg : Config) (clock : Clock) (job : Job) (id : String)
    (target : job.target_resource_id ≡ id) (P : Db → Type 0) where
  retry_update-keeps :
      (type : JobType) (c : Container) (db : Db)
      → IsKeptAt type id P
      → c.id ≡ id
      → settles type c.status ≡ true
      → P db
      → P (retry_update c db).1
  unfolding retry_update
  retry_update-keeps type c db k e st h =
      retry-keeps P (Containers.update c) (λ d p. k.by_update c d e st p) 3 none db h

  process_create-keeps :
      IsKeptAt create_container id P
      → (h : Host S) → P h.db
      → P (process_create rt cfg clock job h).1.db
  unfolding process_create
  process_create-keeps k h p = grind (
    arith,
    k.by_find,
    retry_update-keeps create_container,
    find_by_id-id id h.db,
    sync-settles_create rt,
  )

  process_start-keeps :
      IsKeptAt start_container id P
      → (h : Host S) → P h.db
      → P (process_start rt cfg clock job h).1.db
  unfolding process_start
  process_start-keeps k h p = grind (
    arith,
    k.by_find,
    retry_update-keeps start_container,
    find_by_id-id id h.db,
    sync-settles_start rt,
  )

  process_stop-keeps :
      IsKeptAt stop_container id P
      → (h : Host S) → P h.db
      → P (process_stop rt cfg clock job h).1.db
  unfolding process_stop
  process_stop-keeps k h p =
      grind (arith, k.by_find, retry_update-keeps stop_container, find_by_id-id id h.db)

  retry_delete-keeps : (db : Db) → IsKeptAt delete_container id P → P db → P (retry_delete id db).1
  unfolding retry_delete
  retry_delete-keeps db k h =
      retry-keeps P (Containers.delete id) (λ d p. k.by_delete d refl p) 3 none db h

  process_delete-keeps :
      IsKeptAt delete_container id P
      → (h : Host S) → P h.db
      → P (process_delete rt cfg clock job h).1.db
  unfolding process_delete
  process_delete-keeps k h p = grind (arith, k.by_find, retry_delete-keeps)

  -- A job keeps what its calls on its own container keep.
  pub run_job-keeps_at :
      (type : JobType)
      → IsKeptAt type id P
      → (h : Host S) → P h.db
      → P (run_job rt cfg clock type job h).1.db
  unfolding run_job
  run_job-keeps_at create_container k h p = process_create-keeps k h p
  run_job-keeps_at start_container k h p = process_start-keeps k h p
  run_job-keeps_at stop_container k h p = process_stop-keeps k h p
  run_job-keeps_at delete_container k h p = process_delete-keeps k h p
  run_job-keeps_at (other_type _) k h p = p
