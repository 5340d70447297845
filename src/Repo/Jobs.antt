-- ===== src/Repo/Jobs.antt =====
-- internal/repository/postgres/job_repo.go
use go_container_manager.Prelude.{
  ℕ, ◌+◌, String, Bool, false, ◌&&◌, Option, none, some, List, ◌∷◌, ◌==◌, select, find, count,
  update_where, delete_where, sort_asc, ltb, if◌then◌else◌,
}
use go_container_manager.Errors.{not_found, pg_error}
use go_container_manager.Exec.{Result, ok, err, Exec, lift, ◌>>=◌}
use go_container_manager.Domain.{Job, failed, is_active, is_pending, is_running_job, is_finished}
use go_container_manager.Db.{Tables, Db, statement}
use go_container_manager.Repo.Containers.{affected, pg_unique_violation}

abbrev pub has_id : String → Job → Bool
has_id id j = j.id == id

-- The job of a user: WHERE id = $1 AND user_id = $2
abbrev pub is_users : String → String → Job → Bool
is_users id user_id j = j.id == id && j.user_id == user_id

-- WHERE target_resource_id = $1 AND status IN ('PENDING', 'RUNNING')
abbrev pub active_on : String → Job → Bool
active_on target j = j.target_resource_id == target && is_active j.status

insert : Job → Tables → Result (Unit {0}) × Tables
insert j t =
    if ltb 0 (count (has_id j.id) t.jobs)
    then (err (pg_error pg_unique_violation), t)
    else (ok tt, record t { jobs = j ∷ t.jobs })

unfoldable pub save : Job → Exec Db (Unit {0})
unfolding insert
save j = statement (insert j)

-- QueryRow(…).Scan: no row is pgx.ErrNoRows, which becomes ErrNotFound
abbrev pub or_not_found : Option Job → Result Job
or_not_found none = err not_found
or_not_found (some j) = ok j

unfoldable pub find_by_id_and_user_id : String → String → Exec Db Job
find_by_id_and_user_id id user_id = do
  row ← statement (λ t. (ok (find (is_users id user_id) t.jobs), t))
  lift (or_not_found row)

-- WHERE status = 'PENDING' ORDER BY created_at ASC, the oldest first
unfoldable pub find_pending_jobs : Exec Db (List Job)
find_pending_jobs =
    statement λ t. (ok (sort_asc (λ j. j.created_at) (select (λ j. is_pending j.status) t.jobs)), t)

unfoldable pub find_pending_or_running_by_target : String → Exec Db Job
find_pending_or_running_by_target target = do
  row ← statement (λ t. (ok (find (active_on target) t.jobs), t))
  lift (or_not_found row)

-- SET status = 'FAILED', error_message = $2; `completed_at` is not set
unfoldable pub interrupt : String → Job → Job
interrupt msg j = record j { status = failed; error_message = some msg }

unfoldable pub interrupt_all : String → Tables → Tables
unfolding interrupt
interrupt_all msg t = record t {
  jobs = update_where (λ j. is_running_job j.status) (interrupt msg) t.jobs;
}

unfoldable pub mark_running_as_failed : String → Exec Db (Unit {0})
unfolding interrupt_all
mark_running_as_failed msg = statement λ t. (ok tt, interrupt_all msg t)

-- The columns that UPDATE sets: the status, the error and the completion time.
unfoldable pub overwrite : Job → Job → Job
overwrite j r = record r {
  status = j.status;
  error_message = j.error_message;
  completed_at = j.completed_at;
}

set_row : Job → Tables → Result ℕ × Tables
unfolding overwrite
set_row j t = (
  ok (count (has_id j.id) t.jobs),
  record t { jobs = update_where (has_id j.id) (overwrite j) t.jobs },
)

unfoldable pub update : Job → Exec Db (Unit {0})
unfolding set_row
update j = do n ← statement (set_row j); lift (affected n)

-- `completed_at < now - older_than`, which is NULL and so not true where `completed_at` is NULL
abbrev pub completed_before : ℕ → ℕ → Option ℕ → Bool
completed_before now older_than none = false
completed_before now older_than (some at) = ltb (at + older_than) now

abbrev pub is_expired : ℕ → ℕ → Job → Bool
is_expired now older_than j = is_finished j.status && completed_before now older_than j.completed_at

unfoldable pub purge : ℕ → ℕ → Tables → Tables
purge now older_than t = record t { jobs = delete_where (is_expired now older_than) t.jobs }

-- The number of rows deleted.
unfoldable pub delete_expired : ℕ → ℕ → Exec Db ℕ
unfolding purge
delete_expired now older_than =
    statement λ t. (ok (count (is_expired now older_than) t.jobs), purge now older_than t)
