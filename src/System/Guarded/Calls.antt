-- ===== src/System/Guarded/Calls.antt =====
-- The database calls of a step, while no statement fails.
use go_container_manager.Prelude.{
  ℕ, ◌≤◌, String, Bool, true, ◌≡◌, List, [], arith, count, select, Option,
}
use go_container_manager.Errors.{AppError}
use go_container_manager.Exec.{ok}
use go_container_manager.Domain.{ContainerStatus, Container, Job, is_running, is_pending}
use go_container_manager.Db.{Db, statement, with_tx}
use go_container_manager.Repo.Containers
use go_container_manager.Repo.Jobs
use go_container_manager.Repo.Jobs.{interrupt}
use go_container_manager.Service.Containers.{
  Config, Inputs, new_container, store_container, enroll, run_guarded, guard,
  find_container_for_guard, start_guard, stop_guard, delete_guard, start_conflict, stop_conflict,
  delete_conflict, not_running,
}
use go_container_manager.Service.Containers.Faults.{IsIdle, guard-Admits_faults}
use go_container_manager.Service.Containers.Operations.{Operation, starts, stops, deletes, job_type}
use go_container_manager.Service.Jobs.{clean}
use go_container_manager.Worker.Kept.{IsWorking}
use go_container_manager.App.{recover, or_no_jobs, interrupted_text}
use go_container_manager.System.{admit}
use go_container_manager.System.Changes.{count-enqueue, count-sort_asc}
use go_container_manager.System.Lifecycle.{shelf}
use go_container_manager.System.Guarded.{fits, misfit, pending_misfit}
use go_container_manager.System.Guarded.Counts.{misfit-pending, pending_misfit-interrupt}

guard-IsWorking :
    (refuses : ContainerStatus → Bool) (refusal : AppError) (user_id id : String) (job : Job)
    (db : Db)
    → IsWorking db
    → IsWorking (run_guarded true (guard refuses refusal true user_id id job) db).1
unfolding run_guarded guard with_tx statement find_container_for_guard
    Containers.find_by_id_for_update Jobs.find_pending_or_running_by_target Jobs.save
guard-IsWorking refuses refusal user_id id job db w = ground arith

pub admit-IsWorking :
    (op : Operation) (user_id id : String) (job : Job) (db : Db)
    → IsWorking db
    → IsWorking (admit op user_id id job db).1
unfolding admit start_guard stop_guard delete_guard
admit-IsWorking starts user_id id job db w = guard-IsWorking _ _ user_id id job db w
admit-IsWorking stops user_id id job db w = guard-IsWorking _ _ user_id id job db w
admit-IsWorking deletes user_id id job db w = guard-IsWorking _ _ user_id id job db w

pub admit-fits :
    (op : Operation) (user_id id : String) (job : Job) (db : Db)
    → IsIdle db
    → (admit op user_id id job db).0 ≡ ok tt
    → fits (job_type op) (shelf db id) ≡ true
unfolding admit start_guard stop_guard delete_guard shelf
admit-fits starts user_id id job db i h =
    let a = (guard-Admits_faults is_running start_conflict user_id id job db i h).0 in
    rw a.found (ground (arith, a.ready))
admit-fits stops user_id id job db i h =
    let a = (guard-Admits_faults not_running stop_conflict user_id id job db i h).0 in
    rw a.found (ground (arith, a.ready))
admit-fits deletes user_id id job db i h =
    let a = (guard-Admits_faults is_running delete_conflict user_id id job db i h).0 in
    rw a.found (ground (arith, a.ready))

save-IsWorking : (c : Container) (db : Db) → IsWorking db → IsWorking (Containers.save c db).1
unfolding Containers.save statement
save-IsWorking c db w = ground arith

pub store_container-IsWorking :
    (cfg : Config) (x : Inputs) (user_id name env : String) (command : List String) (db : Db)
    → IsWorking db
    → IsWorking (store_container cfg x user_id name env command db).1
unfolding store_container
store_container-IsWorking cfg x user_id name env command db w =
    ground (arith, save-IsWorking (new_container x user_id name env command) db w)

pub enroll-IsWorking :
    (x : Inputs) (user_id : String) (db : Db) → IsWorking db → IsWorking (enroll x user_id db).1
unfolding enroll Jobs.save statement
enroll-IsWorking x user_id db w = ground arith

pub clean-IsWorking : (now : ℕ) (db : Db) → IsWorking db → IsWorking (clean now db)
unfolding clean Jobs.delete_expired statement
clean-IsWorking now db w = ground arith

-- What a start finds fits as the pending rows do.
pub recover-IsWorking : (db : Db) → IsWorking db → IsWorking (recover db).0
unfolding recover Jobs.mark_running_as_failed Jobs.find_pending_jobs statement
recover-IsWorking db w = ground arith

interrupted-misfit :
    (f : String → Option ContainerStatus) (msg : String) (db : Db)
    → count (pending_misfit f) (Jobs.mark_running_as_failed msg db).1.jobs
      ≡ count (pending_misfit f) db.jobs
unfolding Jobs.mark_running_as_failed statement
interrupted-misfit f msg db = ground (arith, pending_misfit-interrupt msg f db.jobs)

read-misfit :
    (f : String → Option ContainerStatus) (db : Db)
    → let (r, after) = Jobs.find_pending_jobs db in
      (count (misfit f) (or_no_jobs r) ≤ count (pending_misfit f) db.jobs) × (after.jobs ≡ db.jobs)
unfolding Jobs.find_pending_jobs statement count
read-misfit f db = ground (
  arith,
  misfit-pending f db.jobs,
  count-sort_asc (misfit f) (λ j. j.created_at) (select (λ j. is_pending j.status) db.jobs),
)

pub recover-misfit :
    (f : String → Option ContainerStatus) (db : Db)
    → (count (misfit f) (recover db).1 ≤ count (pending_misfit f) db.jobs)
      × (count (pending_misfit f) (recover db).0.jobs ≡ count (pending_misfit f) db.jobs)
unfolding recover count
recover-misfit f db =
    let marked = (Jobs.mark_running_as_failed interrupted_text db).1 in
    let js = or_no_jobs (Jobs.find_pending_jobs marked).0 in
    let m = interrupted-misfit f interrupted_text db in
    let p = read-misfit f marked in
    (omega (arith, p.0, m, count-enqueue (misfit f) [] js), rw p.1 m)
