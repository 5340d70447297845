-- ===== src/Docker/Tracked.antt =====
-- The work on a job with the adapter, and the rows that name a Docker container.
use go_container_manager.Prelude.{
  String, Bool, true, ◌≡◌, refl, inl, inr, none, some, arith, find, Option-cases,
}
use go_container_manager.Exec.{is_ok}
use go_container_manager.Domain.{
  Job, JobType, create_container, start_container, stop_container, delete_container, other_type,
}
use go_container_manager.Db.{ContainerRow, Tables, healthy, statement}
use go_container_manager.Repo.Containers
use go_container_manager.Repo.Containers.{has_id, overwrite, scan_container}
use go_container_manager.Repo.Containers.Rows.{IsKeyed}
use go_container_manager.Worker
use go_container_manager.Worker.{
  Runtime, Clock, Host, run_job, process_create, process_start, process_stop, process_delete,
  sync_container_state,
}
use go_container_manager.Worker.{or_image}
use go_container_manager.Docker.{Client, Os, runtime}
use go_container_manager.Docker.Contract.{IsDocker}
use go_container_manager.Docker.Kept.{IsTracked}
use go_container_manager.Docker.Jobs.{after_create, after_start, after_stop, after_delete}

module _ {S : Type 0} (cli : Client S) (os : Os S) (has : S → String → Bool)
    (k : IsDocker cli os has)
    (reliable : (d : String) (s : S)
      → has s d ≡ true
      → is_ok (cli.container_remove d true s).0 ≡ true) where
  missing :
      (cfg : Worker.Config) (clock : Clock) (job : Job) (t : Tables) (s : S)
      → find (has_id job.target_resource_id) t.containers ≡ none
      → (run_job (runtime cli os) cfg clock job.type job (record { db = healthy t; outside = s })).1
        ≡ record { db = healthy t; outside = s }
  unfolding run_job process_create process_start process_stop process_delete Containers.find_by_id
      statement
  missing cfg clock job t s e = ground arith

  module _ (cfg : Worker.Config) (clock : Clock) (job : Job) (t : Tables) (s : S) (r : ContainerRow)
      (keyed : IsKeyed t.containers)
      (e : find (has_id job.target_resource_id) t.containers ≡ some r)
      (tracked : IsTracked has (record { db = healthy t; outside = s })) where
    by_type :
        (type : JobType)
        → (type ≡ create_container → r.docker_container_id ≡ none)
        → IsTracked has
            (run_job (runtime cli os) cfg clock type job (record { db = healthy t; outside = s })).1
    unfolding run_job
    by_type create_container new =
        after_create cli os has k t keyed r job.target_resource_id e s tracked cfg clock job refl
          (new refl) reliable
    by_type start_container new =
        after_start cli os has k t keyed r job.target_resource_id e s tracked cfg clock job refl
    by_type stop_container new =
        after_stop cli os has k t keyed r job.target_resource_id e s tracked cfg clock job refl
    by_type delete_container new =
        after_delete cli os has k t keyed r job.target_resource_id e s tracked cfg clock job refl
    by_type (other_type _) new = tracked

  -- Where Docker keeps the containers that it created until it removes them and removes by force
  -- what it has, and on a database in which no statement fails, with unique ids and names, each
  -- job that is carried out through the adapter (a create job on a row that names no Docker
  -- container) keeps every container that Docker has named by a row.
  pub run_job-IsTracked :
      (cfg : Worker.Config) (clock : Clock) (job : Job) (t : Tables) (s : S)
      → IsKeyed t.containers
      → ((r : ContainerRow)
          → find (has_id job.target_resource_id) t.containers ≡ some r
          → job.type ≡ create_container
          → r.docker_container_id ≡ none)
      → IsTracked has (record { db = healthy t; outside = s })
      → IsTracked has
          (run_job
            (runtime cli os)
            cfg
            clock
            job.type
            job
            (record { db = healthy t; outside = s })).1
  run_job-IsTracked cfg clock job t s keyed new tracked =
      let id = job.target_resource_id in
      elim (Option-cases (find (has_id id) t.containers)) [
        | inl e ↦ rw (missing cfg clock job t s e) tracked
        | inr (r, e) ↦ by_type cfg clock job t s r keyed e tracked job.type (new r e)
      ]
