-- ===== src/Service/Jobs.antt =====
-- internal/service/job_svc.go and internal/service/job_cleaner.go
pub mod Retention
use go_container_manager.Prelude.{ℕ, String}
use go_container_manager.Errors.{app, err_job_not_found}
use go_container_manager.Exec.{Result, ok, err, Exec, lift, attempt, ◌>>=◌}
use go_container_manager.Domain.{Job, job_retention}
use go_container_manager.Db.{Db}
use go_container_manager.Repo.Jobs

-- Whatever went wrong, the answer is that the job is not there.
abbrev pub or_job_not_found : Result Job → Result Job
or_job_not_found (ok j) = ok j
or_job_not_found (err e) = err (app err_job_not_found)

unfoldable pub get_job : String → String → Exec Db Job
get_job user_id job_id = do
  job ← attempt (Jobs.find_by_id_and_user_id job_id user_id)
  lift (or_job_not_found job)

-- One tick of JobCleaner.run; an error is logged and no more.
unfoldable pub clean : ℕ → Db → Db
clean now db = (Jobs.delete_expired now job_retention db).1
