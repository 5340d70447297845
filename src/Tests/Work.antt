-- ===== src/Tests/Work.antt =====
-- Witnesses for the work of a worker.
use go_container_manager.Prelude.{
  some, none, ◌==◌, ℕ, ◌≡◌, refl, [], ◌∷◌, find, update_where, delete_where,
}
use go_container_manager.Exec.{ok}
use go_container_manager.Domain.{ContainerStatus}
use go_container_manager.Db.{healthy}
use go_container_manager.Repo.Containers
use go_container_manager.Repo.Containers.{scan_container}
use go_container_manager.Worker.{
  Host, process, process_create, process_start, process_stop, process_delete, run_job, marked,
  store_job, sync_container_state,
}
use go_container_manager.Worker.Expected.{with_row, ended_row}
use go_container_manager.Worker.Results.{
  process_create_lem, process_start_lem, process_stop_lem, process_delete_lem,
}
use go_container_manager.Worker.Outcome.{process_lem}
use go_container_manager.Tests.Data.{tables, tables-IsKeyed, resting, job, docker, config, clock}

abbrev host : Host ℕ
host = record { db = healthy tables; outside = 0 }

process_stop_lem_example : process_stop docker config clock job host ≡ (
  ok tt,
  record {
    db = healthy (
        with_row
          (record resting {
            docker_container_id = some "d1";
            status = ContainerStatus.exited;
            updated_at = 300;
          })
          tables);
    outside = 1;
  },
)
unfolding find sync_container_state
process_stop_lem_example =
    process_stop_lem tables tables-IsKeyed resting "c1" refl docker config clock job refl 0

process_delete_lem_example : process_delete docker config clock job host ≡ (
  ok tt,
  record {
    db =
        healthy
          (record tables { containers = delete_where (Containers.has_id "c1") tables.containers });
    outside = 1;
  },
)
unfolding find sync_container_state
process_delete_lem_example =
    process_delete_lem tables tables-IsKeyed resting "c1" refl docker config clock job refl 0

process_start_lem_example : process_start docker config clock job host ≡ (
  ok tt,
  record {
    db = healthy (
        with_row
          (record resting {
            docker_container_id = some "d1";
            status = ContainerStatus.running;
            updated_at = 300;
          })
          tables);
    outside = 3;
  },
)
unfolding find sync_container_state
process_start_lem_example =
    process_start_lem tables tables-IsKeyed resting "c1" refl docker config clock job refl 0

process_create_lem_example : process_create docker config clock job host ≡ (
  ok tt,
  record {
    db = healthy (
        with_row
          (record resting {
            docker_container_id = some "d9";
            status = ContainerStatus.running;
            updated_at = 300;
          })
          tables);
    outside = 4;
  },
)
unfolding find sync_container_state
process_create_lem_example =
    process_create_lem tables tables-IsKeyed resting "c1" refl docker config clock job refl 0

process_lem_example :
    let h : Host ℕ = record host { db = healthy (record tables { jobs = job ∷ [] }) } in
    let begun : Host ℕ = record h { db = store_job (marked job) h.db } in
    let (r, done) = run_job docker config clock job.type (marked job) begun in
    ((process docker config clock job h).outside ≡ done.outside)
    × ((process docker config clock job h).db.containers ≡ done.db.containers)
    × ((process docker config clock job h).db.jobs
        ≡ update_where (λ j. j.id == "j1") (ended_row 400 r none) (job ∷ []))
process_lem_example =
    process_lem docker config clock job
      (record host { db = healthy (record tables { jobs = job ∷ [] }) })
      (record { no_faults = refl; no_tx = refl; not_aborted = refl })
