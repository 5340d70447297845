-- ===== src/Service/Jobs/Retention.antt =====
-- Lookup of a job by its owner, and the cleaner.
use go_container_manager.Prelude.{
  ℕ, ◌+◌, ◌<◌, String, Bool, true, false, ◌&&◌, ◌≡◌, refl, ◌↔◌, List, [], ◌∷◌, eq_iff, arith,
  Option, none, some, count, delete_where, find-none_iff, find-passes, ltb,
}
use go_container_manager.Exec.{ok, is_ok}
use go_container_manager.Domain.{Job, is_finished, is_running_job, job_retention}
use go_container_manager.Db.{Tables, Db, healthy, statement}
use go_container_manager.Repo.Jobs
use go_container_manager.Repo.Jobs.{is_users, is_expired, purge}
use go_container_manager.Service.Jobs.{get_job, clean}

-- On a database in which no statement fails, GetJob succeeds exactly when there is a job with the
-- id that belongs to the user.
pub get_job-ok_iff :
    (user_id job_id : String) (t : Tables)
    → is_ok (get_job user_id job_id (healthy t)).0 ≡ true
      ↔ 0 < count (is_users job_id user_id) t.jobs
unfolding get_job Jobs.find_by_id_and_user_id statement
get_job-ok_iff user_id job_id t = ground (arith, find-none_iff (is_users job_id user_id) t.jobs)

-- Whatever the database does, a job that GetJob returns has the id and belongs to the user who
-- asks.
get_job_owner :
    (user_id job_id : String) (db : Db) (j : Job)
    → (get_job user_id job_id db).0 ≡ ok j
    → (j.id ≡ job_id) × (j.user_id ≡ user_id)
unfolding get_job Jobs.find_by_id_and_user_id statement
get_job_owner user_id job_id db j h = ground (
  arith,
  find-passes (is_users job_id user_id) db.jobs {x = j},
  eq_iff j.id job_id,
  eq_iff j.user_id user_id,
)

-- Finished, with a completion time more than seven days ago.
unfoldable pub is_old : ℕ → Job → Bool
is_old now j =
    is_finished j.status
    && elim j.completed_at [ none ↦ false | some at ↦ ltb (at + job_retention) now ]

count-purge :
    (now : ℕ) (p : Job → Bool) (rows : List Job)
    → count p (delete_where (is_expired now job_retention) rows)
        + count (λ j. p j && is_old now j) rows
      ≡ count p rows
unfolding count delete_where is_old
count-purge now p [] = refl
count-purge now p (r ∷ rows) = ground (arith, count-purge now p rows)

-- A tick of the cleaner on a database in which no statement fails deletes exactly the finished
-- jobs that completed more than seven days before: for every test on jobs, the rows that pass it
-- before are those that are left and those that were old.
pub clean_lem :
    (now : ℕ) (t : Tables) (p : Job → Bool)
    → count p (clean now (healthy t)).jobs + count (λ j. p j && is_old now j) t.jobs
      ≡ count p t.jobs
unfolding clean Jobs.delete_expired statement
clean_lem now t p = count-purge now p t.jobs

abbrev pub is_unstamped : Option ℕ → Bool
is_unstamped none = true
is_unstamped (some _) = false

-- Failed, with no completion time.
abbrev pub is_unfinished_failure : Job → Bool
is_unfinished_failure j = is_finished j.status && is_unstamped j.completed_at

-- Running, and so with no completion time.
abbrev pub is_in_progress : Job → Bool
is_in_progress j = is_running_job j.status && is_unstamped j.completed_at

-- The cleaner's ticks at these times.
unfoldable pub cleans : List ℕ → Db → Db
cleans [] db = db
cleans (now ∷ nows) db = cleans nows (clean now db)
