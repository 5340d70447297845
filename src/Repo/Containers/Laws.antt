-- ===== src/Repo/Containers/Laws.antt =====
-- The container repository leaves the job table alone.
use go_container_manager.Prelude.{String, false, ◌≡◌, List, arith}
use go_container_manager.Domain.{Container, Job}
use go_container_manager.Db.{Db, statement}
use go_container_manager.Repo.Containers.{save, find_by_id, update, delete}

-- No transaction is open, and the job table holds these rows.
pub record HasJobs (jobs : List Job) (db : Db) : Type 0 where
  pub held : db.jobs ≡ jobs
  pub no_tx : db.in_tx ≡ false
  pub not_aborted : db.aborted ≡ false

module _ {jobs : List Job} where
  pub find_by_id-HasJobs :
      (id : String) (db : Db) → HasJobs jobs db → HasJobs jobs (find_by_id id db).1
  unfolding find_by_id statement
  find_by_id-HasJobs id db h = ground arith

  pub save-HasJobs : (c : Container) (db : Db) → HasJobs jobs db → HasJobs jobs (save c db).1
  unfolding save statement
  save-HasJobs c db h = ground arith

  pub update-HasJobs : (c : Container) (db : Db) → HasJobs jobs db → HasJobs jobs (update c db).1
  unfolding update statement
  update-HasJobs c db h = ground arith

  pub delete-HasJobs : (id : String) (db : Db) → HasJobs jobs db → HasJobs jobs (delete id db).1
  unfolding delete statement
  delete-HasJobs id db h = ground arith
