-- ===== src/Tests/Requests.antt =====
-- Witnesses for the requests of a client.
use go_container_manager.Prelude.{
  drop, List, Bool, ◌&&◌, ◌==◌, ◌*◌, ◌<◌, true, false, ◌≡◌, ◌↔◌, ◌⊎◌, refl, [], ◌∷◌, map, take,
  arith, find, count,
}
use go_container_manager.Errors.{app, err_service_unavailable}
use go_container_manager.Exec.{ok, err, is_ok}
use go_container_manager.Domain.{delete_container, is_running}
use go_container_manager.Db.{ContainerRow, healthy, statement, with_tx}
use go_container_manager.Repo.Containers
use go_container_manager.Repo.Containers.{has_id}
use go_container_manager.Repo.Containers.Rows.{container_of}
use go_container_manager.Repo.Jobs
use go_container_manager.Service.Containers.{
  list, Server, start, stop, delete, create_job, run_guarded, guard, delete_guard, not_running,
  start_conflict, stop_conflict, delete_conflict, find_container_for_guard,
}
use go_container_manager.Service.Containers.Guards.{Admits}
use go_container_manager.Service.Containers.Requests.{perform-ok_iff}
use go_container_manager.Service.Containers.Faults.{guard-Admits_faults}
use go_container_manager.Service.Containers.Failures.{perform-error}
use go_container_manager.Service.Containers.Blocked.{expired_start_blocks}
use go_container_manager.Service.Containers.Operations.{stops, deletes}
use go_container_manager.Service.Containers.Reads.{IsNewestFirst, list_lem}
use go_container_manager.Tests.Data.{tables, resting, service, inputs, late, second, server, job}

perform-ok_iff_example :
    is_ok (stop service inputs "alice" "c2" server).0 ≡ true
    ↔ Admits not_running tables "alice" "c2" "j1" × (inputs.expired ≡ false) × (0 < 100)
perform-ok_iff_example = perform-ok_iff stops service inputs "alice" "c2" tables []

-- The running container is not deleted.
perform-error_example :
    let s' = (delete service inputs "alice" "c2" server).1 in
    (s'.queue ≡ [])
    × ((s'.db.tables ≡ tables)
        ⊎ (((delete service inputs "alice" "c2" server).0 ≡ err (app err_service_unavailable))
            × (s'.db.tables
                ≡ record tables { jobs = create_job inputs "alice" "c2" delete_container ∷ [] })))
unfolding delete delete_guard run_guarded guard with_tx statement find find_container_for_guard
    Containers.find_by_id_for_update Jobs.find_pending_or_running_by_target
perform-error_example =
    perform-error deletes service inputs "alice" "c2" server refl
      (record { no_tx = refl; not_aborted = refl }) refl

guard-Admits_faults_example :
    Admits is_running tables "alice" "c1" "j1"
    × ((run_guarded true
          (guard is_running start_conflict true "alice" "c1" job)
          (healthy tables)).1.tables
        ≡ record tables { jobs = job ∷ [] })
unfolding run_guarded guard with_tx statement find count find_container_for_guard
    Containers.find_by_id_for_update Jobs.find_pending_or_running_by_target Jobs.save
guard-Admits_faults_example =
    guard-Admits_faults is_running start_conflict "alice" "c1" job (healthy tables)
      (record { no_tx = refl; not_aborted = refl }) refl

resting-Admits : Admits is_running tables "alice" "c1" "j1"
unfolding find count
resting-Admits = record {
  row = resting;
  found = refl;
  owned = refl;
  idle = refl;
  ready = refl;
  fresh = refl;
}

expired_start_blocks_example :
    let (r, s') = start service late "alice" "c1" server in
    let s : Server = record s' { queue = [] } in
    (r ≡ err (app err_service_unavailable))
    × (s'.queue ≡ [])
    × ((start service second "alice" "c1" s).0 ≡ err (app start_conflict))
    × ((stop service second "alice" "c1" s).0 ≡ err (app stop_conflict))
    × ((delete service second "alice" "c1" s).0 ≡ err (app delete_conflict))
expired_start_blocks_example =
    expired_start_blocks service late second "alice" "c1" tables [] [] resting-Admits refl

list_lem_example :
    (all : List ContainerRow) × IsNewestFirst all
    × ((p : ContainerRow → Bool)
        → count p all ≡ count (λ r. r.user_id == "alice" && p r) tables.containers)
    × (list (λ rows. rows) "alice" 2 1 (healthy tables) ≡ (
      ok (
        map container_of (take 1 (drop (1 * 1) all)),
        count (λ r. r.user_id == "alice") tables.containers,
      ),
      healthy tables,
    ))
list_lem_example =
    list_lem (λ rows. rows) "alice" 1 1 tables (λ p rows. refl) (omega arith) (omega arith)
      (omega arith)
