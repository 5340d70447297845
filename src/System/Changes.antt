-- ===== src/System/Changes.antt =====
-- What each database call of a step does to the job table, whichever statements fail.
use go_container_manager.Prelude.{
  ℕ, ◌+◌, ◌≤◌, String, Bool, true, false, ◌≡◌, refl, ◌⊎◌, List, [], ◌∷◌, ◌++◌, arith, ap, length,
  length-append, count-append, insert_asc, count, update_where, delete_where, select, sort_asc,
}
use go_container_manager.Exec.{Exec, ok, is_ok}
use go_container_manager.Domain.{
  Job, create_container, is_pending, is_running_job, is_running, job_retention,
}
use go_container_manager.Db.{Db, statement, with_tx}
use go_container_manager.Repo.Containers
use go_container_manager.Repo.Containers.Laws.{HasJobs, save-HasJobs}
use go_container_manager.Repo.Jobs
use go_container_manager.Repo.Jobs.{has_id, active_on, overwrite, interrupt, is_expired}
use go_container_manager.Service.Containers.{
  Inputs, create_job, run_guarded, start_guard, stop_guard, delete_guard, store_container, enroll,
  start_conflict, stop_conflict, delete_conflict, not_running, new_container, Config,
  queue_capacity,
}
use go_container_manager.Service.Containers.Faults.{IsIdle, run_guarded-error, guard-Admits_faults}
use go_container_manager.Service.Jobs.{clean}
use go_container_manager.Worker.{store_job}
use go_container_manager.App.{recover, enqueue, or_no_jobs, interrupted_text}
use go_container_manager.System.Counting.{matches, active_as, matches-pending}
use go_container_manager.Service.Containers.Operations.{Operation, starts, stops, deletes}
use go_container_manager.System.{admit}

pub run_guarded-IsIdle :
    (fn : Exec Db (Unit {0})) (db : Db) → IsIdle db → IsIdle (run_guarded true fn db).1
unfolding run_guarded with_tx
run_guarded-IsIdle fn db i = ground arith

pub admit-IsIdle :
    (op : Operation) (user_id id : String) (job : Job) (db : Db)
    → IsIdle db
    → IsIdle (admit op user_id id job db).1
unfolding admit
admit-IsIdle starts user_id id job db i = run_guarded-IsIdle _ db i
admit-IsIdle stops user_id id job db i = run_guarded-IsIdle _ db i
admit-IsIdle deletes user_id id job db i = run_guarded-IsIdle _ db i

-- The row that a successful call added.
pub record IsAdded (rows : List Job) (job : Job) (after : List Job) : Type 0 where
  pub added : after ≡ job ∷ rows
  pub unused : count (has_id job.id) rows ≡ 0

pub admit_lem :
    (op : Operation) (user_id id : String) (job : Job) (db : Db)
    → IsIdle db
    → let (r, after) = admit op user_id id job db in
      ((r ≡ ok tt) × IsAdded db.jobs job after.jobs × (count (active_on id) db.jobs ≡ 0))
      ⊎ ((is_ok r ≡ false) × (after.jobs ≡ db.jobs))
unfolding admit start_guard stop_guard delete_guard
admit_lem starts user_id id job db i = ground (
  arith,
  guard-Admits_faults is_running start_conflict user_id id job db i,
  run_guarded-error (start_guard true user_id id job) db,
)
admit_lem stops user_id id job db i = ground (
  arith,
  guard-Admits_faults not_running stop_conflict user_id id job db i,
  run_guarded-error (stop_guard true user_id id job) db,
)
admit_lem deletes user_id id job db i = ground (
  arith,
  guard-Admits_faults is_running delete_conflict user_id id job db i,
  run_guarded-error (delete_guard true user_id id job) db,
)

save_job :
    (job : Job) (db : Db)
    → IsIdle db
    → let (r, after) = Jobs.save job db in
      IsIdle after
      × (((r ≡ ok tt) × IsAdded db.jobs job after.jobs)
          ⊎ ((is_ok r ≡ false) × (after.jobs ≡ db.jobs)))
unfolding Jobs.save statement
save_job job db i = ground arith

pub store_job_lem :
    (job : Job) (db : Db)
    → IsIdle db
    → IsIdle (store_job job db)
      × (((store_job job db).jobs ≡ db.jobs)
          ⊎ ((store_job job db).jobs ≡ update_where (has_id job.id) (overwrite job) db.jobs))
unfolding store_job Jobs.update statement
store_job_lem job db i = ground arith

pub clean_cases :
    (now : ℕ) (db : Db)
    → IsIdle db
    → IsIdle (clean now db)
      × (((clean now db).jobs ≡ db.jobs)
          ⊎ ((clean now db).jobs ≡ delete_where (is_expired now job_retention) db.jobs))
unfolding clean Jobs.delete_expired statement
clean_cases now db i = ground arith

pub store_container_lem :
    (cfg : Config) (x : Inputs) (user_id name env : String) (command : List String) (db : Db)
    → IsIdle db
    → let after = (store_container cfg x user_id name env command db).1 in
      IsIdle after × (after.jobs ≡ db.jobs)
unfolding store_container
store_container_lem cfg x user_id name env command db i =
    let c = new_container x user_id name env command in
    let kept : HasJobs db.jobs (Containers.save c db).1 =
      save-HasJobs c db (record { held = refl; no_tx = i.no_tx; not_aborted = i.not_aborted }) in
    ground (arith, kept)

pub enroll_lem :
    (x : Inputs) (user_id : String) (db : Db)
    → IsIdle db
    → let (r, after) = enroll x user_id db in
      let job = create_job x user_id x.container_id create_container in
      IsIdle after
      × (((r ≡ ok job) × IsAdded db.jobs job after.jobs)
          ⊎ ((is_ok r ≡ false) × (after.jobs ≡ db.jobs)))
unfolding enroll
enroll_lem x user_id db i =
    ground (arith, save_job (create_job x user_id x.container_id create_container) db i)

-- What the channel holds after a restart has been in its queue or is among the pending jobs.
pub count-enqueue :
    (p : Job → Bool) (queue js : List Job) → count p (enqueue queue js) ≤ count p queue + count p js
unfolding count enqueue
count-enqueue p queue [] = omega arith
count-enqueue p queue (j ∷ js) =
    ground (arith, count-enqueue p (queue ++ j ∷ []) js, count-append p queue (j ∷ []))

pub length-enqueue :
    (queue js : List Job)
    → length queue ≤ queue_capacity
    → length (enqueue queue js) ≤ queue_capacity
unfolding enqueue
length-enqueue queue [] h = h
length-enqueue queue (j ∷ js) h =
    ground (arith, length-enqueue (queue ++ j ∷ []) js, length-append queue (j ∷ []))

count-insert_asc :
    (p : Job → Bool) (key : Job → ℕ) (x : Job) (xs : List Job)
    → count p (insert_asc key x xs) ≡ count p (x ∷ xs)
unfolding count insert_asc
count-insert_asc p key x [] = refl
count-insert_asc p key x (y ∷ ys) = ground (arith, count-insert_asc p key x ys)

pub count-sort_asc :
    (p : Job → Bool) (key : Job → ℕ) (xs : List Job) → count p (sort_asc key xs) ≡ count p xs
unfolding count sort_asc
count-sort_asc p key [] = refl
count-sort_asc p key (x ∷ xs) =
    ground (arith, count-insert_asc p key x (sort_asc key xs), count-sort_asc p key xs)

-- After a restart the jobs in the channel are pending rows, and the rows are what they were or have
-- lost their running status.
pub record IsRecovered (rows after queue : List Job) : Type 0 where
  pub rewritten :
      (after ≡ rows)
      ⊎ (after ≡ update_where (λ j. is_running_job j.status) (interrupt interrupted_text) rows)
  pub from_rows :
      (id target : String) → count (matches id target) queue ≤ count (active_as id target) after
  pub bounded : length queue ≤ queue_capacity

pending_jobs :
    (db : Db)
    → IsIdle db
    → let (r, after) = Jobs.find_pending_jobs db in
      IsIdle after
      × (after.jobs ≡ db.jobs)
      × ((id target : String)
          → count (matches id target) (or_no_jobs r) ≤ count (active_as id target) db.jobs)
unfolding Jobs.find_pending_jobs statement count
pending_jobs db i = (
  ground arith,
  ground arith,
  λ id target. ground (
    arith,
    matches-pending id target db.jobs,
    count-sort_asc (matches id target) (λ j. j.created_at)
        (select (λ j. is_pending j.status) db.jobs),
  ),
)

mark_lem :
    (msg : String) (db : Db)
    → IsIdle db
    → let after = (Jobs.mark_running_as_failed msg db).1 in
      IsIdle after
      × ((after.jobs ≡ db.jobs)
          ⊎ (after.jobs ≡ update_where (λ j. is_running_job j.status) (interrupt msg) db.jobs))
unfolding Jobs.mark_running_as_failed statement
mark_lem msg db i = ground arith

pub recover-IsRecovered :
    (db : Db)
    → IsIdle db
    → let (after, queue) = recover db in IsIdle after × IsRecovered db.jobs after.jobs queue
unfolding recover count
recover-IsRecovered db i =
    let marked = (Jobs.mark_running_as_failed interrupted_text db).1 in
    let js = or_no_jobs (Jobs.find_pending_jobs marked).0 in
    let m = mark_lem interrupted_text db i in
    let p = pending_jobs marked m.0 in
    (
      p.0,
      record {
        rewritten = rw p.1 m.1;
        from_rows = λ id target. omega (
          arith,
          p.2 id target,
          count-enqueue (matches id target) [] js,
          ap (count (active_as id target)) p.1,
        );
        bounded = length-enqueue [] js (omega arith);
      },
    )
