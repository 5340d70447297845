-- ===== src/Worker/Kept.antt =====
-- Properties of the database that a worker's calls of the container repository keep.
use go_container_manager.Prelude.{◌≡◌, [], List, arith, false}
use go_container_manager.Domain.{Job}
use go_container_manager.Db.{Db, statement}
use go_container_manager.Repo.Containers
use go_container_manager.Repo.Containers.Laws.{
  HasJobs, find_by_id-HasJobs, update-HasJobs, delete-HasJobs,
}
use go_container_manager.Repo.Containers.Rows.{IsKeyed}
use go_container_manager.Repo.Containers.Keys.{update-IsKeyed, delete-IsKeyed}
use go_container_manager.Worker.Retry.{IsKept}

pub HasJobs-IsKept : (jobs : List Job) → IsKept (HasJobs jobs)
HasJobs-IsKept jobs = record {
  by_find = find_by_id-HasJobs;
  by_update = update-HasJobs;
  by_delete = delete-HasJobs;
}

-- No statement fails, and no transaction is open.
pub record IsWorking (db : Db) : Type 0 where
  pub no_faults : db.faults ≡ []
  pub no_tx : db.in_tx ≡ false
  pub not_aborted : db.aborted ≡ false

pub IsWorking-IsKept : IsKept IsWorking
unfolding Containers.find_by_id Containers.update Containers.delete statement
IsWorking-IsKept = record {
  by_find = λ id db h. ground arith;
  by_update = λ c db h. ground arith;
  by_delete = λ id db h. ground arith;
}

pub IsKeyed-IsKept : IsKept (λ db. IsKeyed db.containers)
unfolding Containers.find_by_id statement
IsKeyed-IsKept = record {
  by_find = λ id db h. ground arith;
  by_update = λ c db h. update-IsKeyed db c h;
  by_delete = λ id db h. delete-IsKeyed db id h;
}
