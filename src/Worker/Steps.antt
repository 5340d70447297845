-- ===== src/Worker/Steps.antt =====
-- The work on a job where no statement fails, in terms of the worker's own helpers.
use go_container_manager.Prelude.{
  inl, inr, String, ◌≡◌, refl, some, arith, find, update_where, delete_where, find-none_iff,
  find-passes, ◌==◌, eq_iff, if◌then◌else◌,
}
use go_container_manager.Exec.{Result, ok, err, is_ok, Result-cases}
use go_container_manager.Domain.{Container, ContainerStatus, Job}
use go_container_manager.Db.{ContainerRow, Tables, healthy, statement}
use go_container_manager.Repo.Containers
use go_container_manager.Repo.Containers.{has_id, scan_container, overwrite, name_clash}
use go_container_manager.Repo.Containers.Rows.{IsKeyed, name_clash-false}
use go_container_manager.Service.Containers.{lookup}
use go_container_manager.FilePath.{join}
use go_container_manager.Worker.{
  Runtime, Config, Clock, Host, process_create, process_start, process_stop, process_delete, retry,
  retry_update, retry_delete, sync_container_state, stop_result, start_result, remove_result,
  no_docker_id, or_image,
}

-- The tables with the columns of `c` in its row.
abbrev pub with_container : Container → Tables → Tables
with_container c t = record t { containers = update_where (has_id c.id) (overwrite c) t.containers }

module _ (t : Tables) (keyed : IsKeyed t.containers) (r : ContainerRow) (id : String)
    (found : find (has_id id) t.containers ≡ some r) where
  pub find_lem : Containers.find_by_id id (healthy t) ≡ (ok (scan_container r), healthy t)
  unfolding Containers.find_by_id statement
  find_lem = ground arith

  pub update_lem :
      (c : Container)
      → c.id ≡ id
      → c.name ≡ r.name
      → retry_update c (healthy t) ≡ (ok tt, healthy (with_container c t))
  unfolding retry_update retry Containers.update statement
  update_lem c e n =
      ground
        (arith, name_clash-false c t.containers r keyed, find-none_iff (has_id id) t.containers)

  pub delete_lem :
      retry_delete id (healthy t)
      ≡ (ok tt, healthy (record t { containers = delete_where (has_id id) t.containers }))
  unfolding retry_delete retry Containers.delete statement
  delete_lem = ground (arith, find-none_iff (has_id id) t.containers)

  pub found_id : r.id ≡ id
  found_id = ground (arith, find-passes (has_id id) t.containers {x = r} found, eq_iff r.id id)

  module _ {S : Type 0} (rt : Runtime S) (cfg : Config) (clock : Clock) (job : Job)
      (target : job.target_resource_id ≡ id) (s : S) where
    pub process_stop_step :
        let c = scan_container r in
        let (answer, s') = rt.stop c.docker_container_id s in
        process_stop rt cfg clock job (record { db = healthy t; outside = s }) ≡ (
          if is_ok (stop_result rt answer)
          then (
            ok tt,
            record {
              db = healthy (
                  with_container
                    (record c { status = ContainerStatus.exited; updated_at = clock.updated })
                    t);
              outside = s';
            },
          )
          else (answer, record { db = healthy t; outside = s' }))
    unfolding process_stop scan_container
    process_stop_step =
        let c : Container = record (scan_container r) {
          status = ContainerStatus.exited;
          updated_at = clock.updated;
        } in
        ground (arith, find_lem, update_lem c found_id refl)

    pub process_delete_step :
        let c = scan_container r in
        let (answer, s') = rt.remove c.docker_container_id s in
        let gone = healthy (record t { containers = delete_where (has_id id) t.containers }) in
        process_delete rt cfg clock job (record { db = healthy t; outside = s }) ≡ (
          if c.docker_container_id == ""
          then (ok tt, record { db = gone; outside = s })
          else if is_ok (remove_result rt answer)
          then (ok tt, record { db = gone; outside = s' })
          else (answer, record { db = healthy t; outside = s' }))
    unfolding process_delete
    process_delete_step = ground (arith, find_lem, delete_lem)

    pub process_start_step :
        let c = scan_container r in
        let docker = c.docker_container_id in
        let (answer, s') = rt.start docker s in
        let (status, s'') = sync_container_state rt docker s' in
        process_start rt cfg clock job (record { db = healthy t; outside = s }) ≡ (
          if docker == ""
          then (err no_docker_id, record { db = healthy t; outside = s })
          else if is_ok answer
          then (
            ok tt,
            record {
              db =
                  healthy
                    (with_container (record c { status = status; updated_at = clock.updated }) t);
              outside = s'';
            },
          )
          else (start_result rt docker answer, record { db = healthy t; outside = s' }))
    unfolding process_start scan_container
    process_start_step =
        let docker = (scan_container r).docker_container_id in
        let status = (sync_container_state rt docker (rt.start docker s).1).0 in
        let c : Container = record (scan_container r) {
          status = status;
          updated_at = clock.updated;
        } in
        ground (arith, find_lem, update_lem c found_id refl)

    abbrev pub created : Clock → Container → Result String × S → Result (Unit {0}) × Host S
    created now c (ok docker, s₂) =
        let (status, s₃) = sync_container_state rt docker s₂ in
        (
          ok tt,
          record {
            db = healthy (
                with_container
                  (record c {
                    docker_container_id = docker;
                    status = status;
                    updated_at = now.updated;
                  })
                  t);
            outside = s₃;
          },
        )
    created now c (err e, s₂) = (err e, record { db = healthy t; outside = s₂ })

    pub process_create_step :
        let c = scan_container r in
        let (made, s₁) = rt.mkdir_all (join cfg.storage_root c.user_id) s in
        let image = or_image (lookup c.environment cfg.env_map) in
        let answer = rt.create_and_start c image (join cfg.storage_host_path c.user_id) s₁ in
        process_create rt cfg clock job (record { db = healthy t; outside = s }) ≡ (
          if is_ok made
          then created clock c answer
          else (made, record { db = healthy t; outside = s₁ }))
    unfolding process_create scan_container
    process_create_step =
        let c₀ = scan_container r in
        let s₁ = (rt.mkdir_all (join cfg.storage_root c₀.user_id) s).1 in
        let answer =
          rt.create_and_start c₀ (or_image (lookup c₀.environment cfg.env_map))
            (join cfg.storage_host_path c₀.user_id) s₁ in
        elim (Result-cases answer.0) [
          | inl (docker, e) ↦
              let status = (sync_container_state rt docker answer.1).0 in
              let c : Container = record c₀ {
                docker_container_id = docker;
                status = status;
                updated_at = clock.updated;
              } in
              ground (arith, find_lem, update_lem c found_id refl)
          | inr (x, e) ↦ ground (arith, find_lem)
        ]
