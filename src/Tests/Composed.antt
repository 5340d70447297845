-- ===== src/Tests/Composed.antt =====
-- Alice starts her container, from her request to the row that says that it has been done.
use go_container_manager.Prelude.{refl, [], ◌∷◌, arith, find, count}
use go_container_manager.Db.{healthy, statement, with_tx}
use go_container_manager.Domain.{JobStatus}
use go_container_manager.Repo.Containers
use go_container_manager.Repo.Jobs
use go_container_manager.Service.Containers.{
  create_job, run_guarded, guard, start, start_guard, find_container_for_guard, send_job,
}
use go_container_manager.Service.Containers.Operations.{starts, perform}
use go_container_manager.System.{Reach}
use go_container_manager.System.Composed.{performs}
use go_container_manager.System.Composed.Journey.{journey, asked_job, ArrivesFrom}
use go_container_manager.Tests.Data.{tables, service, inputs, docker, config, clock}
use go_container_manager.Tests.Server as Run

performs_example :
    let h =
      (perform starts service inputs "alice" "c1" (record { db = healthy tables; queue = [] })).1 in
    Reach docker service config 4 Run.start (record Run.start { db = h.db; queue = h.queue })
performs_example = performs docker service config 4 starts inputs "alice" "c1" Run.start refl

journey_example :
    ArrivesFrom docker service config 4 starts inputs "alice" "c1" clock tables Run.start (
      healthy (record tables {
        jobs =
            record (asked_job starts inputs "alice" "c1") { status = JobStatus.running }
            ∷ tables.jobs;
      }))
unfolding start start_guard run_guarded guard with_tx statement find count send_job
    find_container_for_guard Containers.find_by_id_for_update Jobs.find_pending_or_running_by_target
    Jobs.save create_job
journey_example =
    journey docker service config 4 starts inputs "alice" "c1" clock tables Run.start refl refl refl
      (omega arith) refl
