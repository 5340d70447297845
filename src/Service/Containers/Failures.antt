-- ===== src/Service/Containers/Failures.antt =====
-- Start, Stop and Delete that fail, for whatever reason.
use go_container_manager.Prelude.{String, true, false, ◌≡◌, ◌⊎◌, ◌∷◌, arith}
use go_container_manager.Errors.{app, err_service_unavailable}
use go_container_manager.Exec.{err, is_ok}
use go_container_manager.Domain.{is_running, start_container, stop_container, delete_container}
use go_container_manager.Service.Containers.{
  Config, Inputs, Server, not_running, start_guard, stop_guard, delete_guard, start, stop, delete,
  create_job, start_conflict, stop_conflict, delete_conflict,
}
use go_container_manager.Service.Containers.Faults.{IsIdle, run_guarded-error, guard-Admits_faults}
use go_container_manager.Service.Containers.Operations.{
  Operation, starts, stops, deletes, perform, job_type,
}

-- With a TxManager, Start that fails, whichever statements failed, has sent nothing and has left
-- every table as it was, unless the failure is that of sendJob: then the job is stored although
-- the caller gets an error.
start-error :
    (cfg : Config) (x : Inputs) (user_id container_id : String) (s : Server)
    → cfg.tx_manager ≡ true
    → IsIdle s.db
    → is_ok (start cfg x user_id container_id s).0 ≡ false
    → let s' = (start cfg x user_id container_id s).1 in
      let job = create_job x user_id container_id start_container in
      (s'.queue ≡ s.queue)
      × ((s'.db.tables ≡ s.db.tables)
          ⊎ (((start cfg x user_id container_id s).0 ≡ err (app err_service_unavailable))
              × (s'.db.tables ≡ record s.db.tables { jobs = job ∷ s.db.tables.jobs })))
unfolding start start_guard
start-error cfg x user_id container_id s tx i h =
    let job = create_job x user_id container_id start_container in
    ground (
      arith,
      run_guarded-error (start_guard true user_id container_id job) s.db,
      guard-Admits_faults is_running start_conflict user_id container_id job s.db i,
    )

-- With a TxManager, Stop that fails, whichever statements failed, has sent nothing and has left
-- every table as it was, unless the failure is that of sendJob: then the job is stored although
-- the caller gets an error.
stop-error :
    (cfg : Config) (x : Inputs) (user_id container_id : String) (s : Server)
    → cfg.tx_manager ≡ true
    → IsIdle s.db
    → is_ok (stop cfg x user_id container_id s).0 ≡ false
    → let s' = (stop cfg x user_id container_id s).1 in
      let job = create_job x user_id container_id stop_container in
      (s'.queue ≡ s.queue)
      × ((s'.db.tables ≡ s.db.tables)
          ⊎ (((stop cfg x user_id container_id s).0 ≡ err (app err_service_unavailable))
              × (s'.db.tables ≡ record s.db.tables { jobs = job ∷ s.db.tables.jobs })))
unfolding stop stop_guard
stop-error cfg x user_id container_id s tx i h =
    let job = create_job x user_id container_id stop_container in
    ground (
      arith,
      run_guarded-error (stop_guard true user_id container_id job) s.db,
      guard-Admits_faults not_running stop_conflict user_id container_id job s.db i,
    )

-- With a TxManager, Delete that fails, whichever statements failed, has sent nothing and has left
-- every table as it was, unless the failure is that of sendJob: then the job is stored although
-- the caller gets an error.
delete-error :
    (cfg : Config) (x : Inputs) (user_id container_id : String) (s : Server)
    → cfg.tx_manager ≡ true
    → IsIdle s.db
    → is_ok (delete cfg x user_id container_id s).0 ≡ false
    → let s' = (delete cfg x user_id container_id s).1 in
      let job = create_job x user_id container_id delete_container in
      (s'.queue ≡ s.queue)
      × ((s'.db.tables ≡ s.db.tables)
          ⊎ (((delete cfg x user_id container_id s).0 ≡ err (app err_service_unavailable))
              × (s'.db.tables ≡ record s.db.tables { jobs = job ∷ s.db.tables.jobs })))
unfolding delete delete_guard
delete-error cfg x user_id container_id s tx i h =
    let job = create_job x user_id container_id delete_container in
    ground (
      arith,
      run_guarded-error (delete_guard true user_id container_id job) s.db,
      guard-Admits_faults is_running delete_conflict user_id container_id job s.db i,
    )

-- With a TxManager, Start, Stop and Delete that fail, whichever statements failed, have sent
-- nothing and have left every table as it was, unless the failure is that of sendJob: then the job
-- is stored although the caller gets an error.
pub perform-error :
    (op : Operation) (cfg : Config) (x : Inputs) (user_id container_id : String) (s : Server)
    → cfg.tx_manager ≡ true
    → IsIdle s.db
    → is_ok (perform op cfg x user_id container_id s).0 ≡ false
    → let s' = (perform op cfg x user_id container_id s).1 in
      let job = create_job x user_id container_id (job_type op) in
      (s'.queue ≡ s.queue)
      × ((s'.db.tables ≡ s.db.tables)
          ⊎ (((perform op cfg x user_id container_id s).0 ≡ err (app err_service_unavailable))
              × (s'.db.tables ≡ record s.db.tables { jobs = job ∷ s.db.tables.jobs })))
perform-error starts = start-error
perform-error stops = stop-error
perform-error deletes = delete-error
