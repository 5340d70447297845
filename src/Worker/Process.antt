-- ===== src/Worker/Process.antt =====
-- A worker's job changes the job table only in its own row.
use go_container_manager.Prelude.{arith}
use go_container_manager.Domain.{
  Job, JobType, create_container, start_container, stop_container, delete_container, other_type,
}
use go_container_manager.Db.{Db}
use go_container_manager.Worker.{
  Runtime, Config, Clock, Host, process_create, process_start, process_stop, process_delete,
  run_job,
}
use go_container_manager.Worker.Retry.{IsKept, retry_update-keeps, retry_delete-keeps}

module _ {S : Type 0} (rt : Runtime S) (cfg : Config) (clock : Clock) (job : Job) (P : Db → Type 0)
    (kept : IsKept P) where
  process_create-keeps : (h : Host S) → P h.db → P (process_create rt cfg clock job h).1.db
  unfolding process_create
  process_create-keeps h k = grind (arith, kept.by_find, retry_update-keeps P kept)

  process_start-keeps : (h : Host S) → P h.db → P (process_start rt cfg clock job h).1.db
  unfolding process_start
  process_start-keeps h k = grind (arith, kept.by_find, retry_update-keeps P kept)

  process_stop-keeps : (h : Host S) → P h.db → P (process_stop rt cfg clock job h).1.db
  unfolding process_stop
  process_stop-keeps h k = grind (arith, kept.by_find, retry_update-keeps P kept)

  process_delete-keeps : (h : Host S) → P h.db → P (process_delete rt cfg clock job h).1.db
  unfolding process_delete
  process_delete-keeps h k = grind (arith, kept.by_find, retry_delete-keeps P kept)

  -- The work itself leaves the job table alone, whatever the job, Docker and the database do.
  pub run_job-keeps :
      (type : JobType) (h : Host S) → P h.db → P (run_job rt cfg clock type job h).1.db
  unfolding run_job
  run_job-keeps create_container h k = process_create-keeps h k
  run_job-keeps start_container h k = process_start-keeps h k
  run_job-keeps stop_container h k = process_stop-keeps h k
  run_job-keeps delete_container h k = process_delete-keeps h k
  run_job-keeps (other_type _) h k = k
