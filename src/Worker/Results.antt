-- ===== src/Worker/Results.antt =====
-- What each kind of job does to its container, on a database in which no statement fails and for
-- every answer of Docker.
use mathlib.Core.Path.{subst, sym}
use Prim.Native.String.{◌++◌}
use go_container_manager.Prelude.{
  ℕ, inl, inr, String, ◌≡◌, refl, some, arith, find, delete_where, ◌==◌, if◌then◌else◌,
}
use go_container_manager.Errors.{plain, wrapped}
use go_container_manager.Exec.{Result, ok, err, Result-cases}
use go_container_manager.Domain.{Container, ContainerStatus, Job}
use go_container_manager.Db.{ContainerRow, Tables, healthy}
use go_container_manager.Repo.Containers.{has_id, scan_container, overwrite}
use go_container_manager.Repo.Containers.Rows.{IsKeyed, docker_of, container_of, scan_container_lem}
use go_container_manager.Service.Containers.{lookup}
use go_container_manager.FilePath.{join}
use go_container_manager.Worker.{
  Runtime, Config, Clock, Host, process_create, process_start, process_stop, process_delete,
  retry_update,
}
use go_container_manager.Worker.Steps.{find_lem, update_lem, delete_lem, found_id}
use go_container_manager.Worker.Expected.{
  with_row, stored_id, status_of, after_status, sync_lem, image_of, image_lem, update_found,
}

module _ (t : Tables) (keyed : IsKeyed t.containers) (r : ContainerRow) (id : String)
    (found : find (has_id id) t.containers ≡ some r) where
  -- The row of the container, with these columns changed.
  stored_lem :
      (docker : String) (status : ContainerStatus) (now : ℕ)
      → let c : Container = record (scan_container r) {
        docker_container_id = docker;
        status = status;
        updated_at = now;
      } in
        retry_update c (healthy t) ≡ (
          ok tt,
          healthy (
              with_row
                (record r {
                  docker_container_id = stored_id docker;
                  status = status;
                  updated_at = now;
                })
                t),
        )
  unfolding scan_container overwrite
  stored_lem docker status now =
      let c : Container = record (scan_container r) {
        docker_container_id = docker;
        status = status;
        updated_at = now;
      } in
      let own : find (has_id r.id) t.containers ≡ some r =
        subst (λ i. find (has_id i) t.containers ≡ some r) (sym (found_id t keyed r id found))
          found in
      rw (update_lem t keyed r id found c (found_id t keyed r id found) refl)
        (rw (update_found (overwrite c) r.id r t.containers (keyed.one_id r.id) own) refl)

  module _ {S : Type 0} (rt : Runtime S) (cfg : Config) (clock : Clock) (job : Job)
      (target : job.target_resource_id ≡ id) (s : S) where
    abbrev Outcome : Type 0
    Outcome = Result (Unit {0}) × Host S

    -- The job ends like this, and leaves these tables.
    abbrev pub leaves : Result (Unit {0}) → Tables → S → Outcome
    leaves r u s = (r, record { db = healthy u; outside = s })

    -- On a database in which no statement fails, where the container is in the table and ids and
    -- names are unique, a stop job makes its row Exited if Docker stops the container or its error
    -- says that it was not modified; any other error of Docker is the job's and the tables stay.
    pub process_stop_lem :
        let docker = docker_of r.docker_container_id in
        let (answer, s') = rt.stop docker s in
        let exited =
          with_row
            (record r {
              docker_container_id = stored_id docker;
              status = ContainerStatus.exited;
              updated_at = clock.updated;
            })
            t in
        process_stop rt cfg clock job (record { db = healthy t; outside = s }) ≡ elim answer [
          | ok _ ↦ leaves (ok tt) exited s'
          | err e ↦ if rt.is_not_modified e then leaves (ok tt) exited s' else leaves (err e) t s'
        ]
    unfolding process_stop scan_container
    process_stop_lem =
        let docker = docker_of r.docker_container_id in
        elim (Result-cases (rt.stop docker s).0) [
          | inl (_, e) ↦ ground (
            arith,
            e,
            (find_lem t keyed r id found),
            stored_lem docker ContainerStatus.exited clock.updated,
          )
          | inr (x, e) ↦ ground (
            arith,
            e,
            (find_lem t keyed r id found),
            stored_lem docker ContainerStatus.exited clock.updated,
          )
        ]

    -- On a database in which no statement fails, where the container is in the table and ids and
    -- names are unique, a delete job removes the Docker container, if its row names one, and then
    -- the row, also when Docker's error says that the container was not found; any other error of
    -- Docker is the job's and the row stays.
    pub process_delete_lem :
        let docker = docker_of r.docker_container_id in
        let (answer, s') = rt.remove docker s in
        let gone = record t { containers = delete_where (λ x. x.id == id) t.containers } in
        process_delete rt cfg clock job (record { db = healthy t; outside = s }) ≡ (
          if docker == "" then leaves (ok tt) gone s else elim answer [
            | ok _ ↦ leaves (ok tt) gone s'
            | err e ↦ if rt.is_not_found e then leaves (ok tt) gone s' else leaves (err e) t s'
          ])
    unfolding process_delete scan_container
    process_delete_lem = elim (Result-cases (rt.remove (docker_of r.docker_container_id) s).0) [
      | inl (_, e) ↦
          ground (arith, e, (find_lem t keyed r id found), (delete_lem t keyed r id found))
      | inr (x, e) ↦
          ground (arith, e, (find_lem t keyed r id found), (delete_lem t keyed r id found))
    ]

    -- On a database in which no statement fails, where the container is in the table and ids and
    -- names are unique, and for every answer of Docker, a start job needs a Docker id, starts that
    -- container and writes the status Exited if it exits within half a second or Docker then
    -- reports a state other than running, and Running otherwise, also when Docker cannot be asked;
    -- or it has Docker's error and leaves the tables.
    pub process_start_lem :
        let docker = docker_of r.docker_container_id in
        let (answer, s') = rt.start docker s in
        let seen =
          with_row
            (record r {
              docker_container_id = some docker;
              status = status_of rt docker s';
              updated_at = clock.updated;
            })
            t in
        process_start rt cfg clock job (record { db = healthy t; outside = s }) ≡ (
          if docker == ""
          then leaves
              (err (plain "container has no Docker container ID (create job may have failed)"))
              t
              s
          else elim answer [
            | ok _ ↦ leaves (ok tt) seen (after_status rt docker s')
            | err e ↦
                leaves
                  (err (
                    if rt.is_not_found e
                    then wrapped
                        ("Docker container " ++ docker ++ " not found (may have been removed)")
                        e
                    else e))
                  t
                  s'
          ])
    unfolding process_start scan_container
    process_start_lem =
        let docker = docker_of r.docker_container_id in
        let s' = (rt.start docker s).1 in
        let row = stored_lem docker (status_of rt docker s') clock.updated in
        elim (Result-cases (rt.start docker s).0) [
          | inl (_, e) ↦
              ground (arith, e, (find_lem t keyed r id found), row, sync_lem rt docker s')
          | inr (x, e) ↦ ground (arith, e, (find_lem t keyed r id found))
        ]

    -- On a database in which no statement fails, where the container is in the table and ids and
    -- names are unique, and for every answer of the file system and Docker, a create job makes the
    -- user's folder, creates and starts a container of its environment's image ("" if there is
    -- none) and writes its Docker id into the row, with the status Exited if it exits within half
    -- a second or Docker then reports a state other than running, and Running otherwise, also when
    -- Docker cannot be asked; or it has the first error and leaves the tables.
    pub process_create_lem :
        let (made, s₁) = rt.mkdir_all (join cfg.storage_root r.user_id) s in
        let image = image_of (lookup r.environment cfg.env_map) in
        let (answer, s₂) =
          rt.create_and_start (container_of r) image (join cfg.storage_host_path r.user_id) s₁ in
        process_create rt cfg clock job (record { db = healthy t; outside = s }) ≡ elim made [
          | err e ↦ leaves (err e) t s₁
          | ok _ ↦ elim answer [
            | err e ↦ leaves (err e) t s₂
            | ok docker ↦
                leaves
                  (ok tt)
                  (with_row
                    (record r {
                      docker_container_id = stored_id docker;
                      status = status_of rt docker s₂;
                      updated_at = clock.updated;
                    })
                    t)
                  (after_status rt docker s₂)
          ]
        ]
    unfolding process_create scan_container
    process_create_lem =
        let env = lookup r.environment cfg.env_map in
        let made = rt.mkdir_all (join cfg.storage_root r.user_id) s in
        let answer =
          rt.create_and_start (container_of r) (image_of env) (join cfg.storage_host_path r.user_id)
            made.1 in
        elim (Result-cases made.0) [
          | inr (x, e) ↦ ground (arith, e, (find_lem t keyed r id found))
          | inl (_, e) ↦ elim (Result-cases answer.0) [
            | inr (x, f) ↦
                ground
                  (arith, e, f, (find_lem t keyed r id found), image_lem env, scan_container_lem r)
            | inl (docker, f) ↦
                let row = stored_lem docker (status_of rt docker answer.1) clock.updated in
                ground (
                  arith,
                  e,
                  f,
                  (find_lem t keyed r id found),
                  image_lem env,
                  scan_container_lem r,
                  row,
                  sync_lem rt docker answer.1,
                )
          ]
        ]
