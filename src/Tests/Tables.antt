-- ===== src/Tests/Tables.antt =====
-- Witnesses for the tables: rows read back, transactions, recovery, retention.
use go_container_manager.Prelude.{◌+◌, true, ◌≡◌, ◌&&◌, [], ◌∷◌, count, take}
use go_container_manager.Domain.{JobStatus, is_running_job}
use go_container_manager.Db.{Tables, healthy}
use go_container_manager.Service.Containers.{queue_capacity}
use go_container_manager.Service.Jobs.{clean}
use go_container_manager.Service.Jobs.Retention.{is_old, clean_lem}
use go_container_manager.App.{recover}
use go_container_manager.App.Recovery.{pending_jobs, recover_lem}
use go_container_manager.Tests.Data.{tables, job}

-- One job is pending and one was running when the process died.
abbrev crashed : Tables
crashed = record tables {
  jobs = job ∷ record job { id = "j2"; target_resource_id = "c2"; status = JobStatus.running } ∷ [];
}

recover_lem_example :
    let (db, queue) = recover (healthy crashed) in
    (count (λ j. is_running_job j.status) db.jobs ≡ 0)
    × (pending_jobs db.tables ≡ pending_jobs crashed)
    × (queue ≡ take queue_capacity (pending_jobs crashed))
recover_lem_example = recover_lem crashed

clean_lem_example :
    count (λ j. true) (clean 1000 (healthy crashed)).jobs
      + count (λ j. true && is_old 1000 j) crashed.jobs
    ≡ count (λ j. true) crashed.jobs
clean_lem_example = clean_lem 1000 crashed (λ j. true)
