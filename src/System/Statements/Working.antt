-- ===== src/System/Statements/Working.antt =====
-- Every step keeps IsWorking.
use go_container_manager.Prelude.{ℕ}
use go_container_manager.Service.Containers
use go_container_manager.Service.Containers.{create_job}
use go_container_manager.Service.Containers.Operations.{job_type}
use go_container_manager.Worker
use go_container_manager.Worker.{Runtime, marked, ended, run_job}
use go_container_manager.Worker.Process.{run_job-keeps}
use go_container_manager.Worker.Kept.{IsWorking, IsWorking-IsKept}
use go_container_manager.Worker.Outcome.{store_job-IsWorking}
use go_container_manager.System.{
  System, Step, request, submit, enlist, send, give_up, receive, mark, work, settle, tick, restart,
}
use go_container_manager.System.Guarded.Calls.{
  admit-IsWorking, enroll-IsWorking, store_container-IsWorking, clean-IsWorking, recover-IsWorking,
}

module _ {S : Type 0} (rt : Runtime S) (service : Containers.Config) (config : Worker.Config)
    (pool_size : ℕ) {s : System S} (w : IsWorking s.db) where
  pub Step-IsWorking : {t : System S} → Step rt service config pool_size s t → IsWorking t.db
  Step-IsWorking (request op x user_id id) =
      admit-IsWorking op user_id id (create_job x user_id id (job_type op)) s.db w
  Step-IsWorking (submit x user_id name env command unused) =
      store_container-IsWorking service x user_id name env command s.db w
  Step-IsWorking (enlist before after c e unused) = enroll-IsWorking c.inputs c.user_id s.db w
  Step-IsWorking (send before after job e room) = w
  Step-IsWorking (give_up before after job e) = w
  Step-IsWorking (receive job rest e room) = w
  Step-IsWorking (mark before after job e) = (store_job-IsWorking (marked job) s.db w).0
  Step-IsWorking (work before after job clock e) =
      run_job-keeps rt config clock job IsWorking IsWorking-IsKept job.type
        (record { db = s.db; outside = s.outside }) w
  Step-IsWorking (settle before after job r now e) =
      (store_job-IsWorking (ended now r job) s.db w).0
  Step-IsWorking (tick now) = clean-IsWorking now s.db w
  Step-IsWorking restart = recover-IsWorking s.db w
