-- ===== src/Service/Containers/Guards.antt =====
-- What the guards of Start, Stop and Delete admit, on a database in which no statement fails.
use go_container_manager.Prelude.{
  String, Bool, true, false, ◌≡◌, inl, inr, some, ◌∷◌, eq_iff, arith, find, count, find-none_iff,
  Option-cases,
}
use go_container_manager.Errors.{AppError}
use go_container_manager.Exec.{ok, is_ok}
use go_container_manager.Domain.{ContainerStatus, Job}
use go_container_manager.Db.{ContainerRow, Tables, healthy, statement, with_tx}
use go_container_manager.Repo.Containers
use go_container_manager.Repo.Jobs
use go_container_manager.Service.Containers.{run_guarded, guard, find_container_for_guard}

-- The container is there, belongs to the user and has a status that is not refused, no job of it is
-- pending or running, and the id of the new job is unused.
pub record Admits (refuses : ContainerStatus → Bool) (t : Tables)
    (user_id container_id job_id : String) : Type 0 where
  pub row : ContainerRow
  pub found : find (Containers.has_id container_id) t.containers ≡ some row
  pub owned : row.user_id ≡ user_id
  pub idle : count (Jobs.active_on container_id) t.jobs ≡ 0
  pub ready : refuses row.status ≡ false
  pub fresh : count (Jobs.has_id job_id) t.jobs ≡ 0

module _ (refuses : ContainerStatus → Bool) (refusal : AppError) (t : Tables)
    (user_id container_id : String) (job : Job) where
  pub guard-Admits :
      (tx : Bool)
      → Admits refuses t user_id container_id job.id
      → run_guarded tx (guard refuses refusal tx user_id container_id job) (healthy t)
        ≡ (ok tt, healthy (record t { jobs = job ∷ t.jobs }))
  unfolding run_guarded guard with_tx statement find_container_for_guard Containers.find_by_id
      Containers.find_by_id_for_update Jobs.find_pending_or_running_by_target Jobs.save
  guard-Admits true a =
      ground
        (arith, eq_iff a.row.user_id user_id, find-none_iff (Jobs.active_on container_id) t.jobs)
  guard-Admits false a =
      ground
        (arith, eq_iff a.row.user_id user_id, find-none_iff (Jobs.active_on container_id) t.jobs)

  pub guard_ok :
      (tx : Bool)
      → is_ok (run_guarded tx (guard refuses refusal tx user_id container_id job) (healthy t)).0
        ≡ true
      → Admits refuses t user_id container_id job.id
  unfolding run_guarded guard with_tx statement find_container_for_guard Containers.find_by_id
      Containers.find_by_id_for_update Jobs.find_pending_or_running_by_target Jobs.save
  guard_ok tx h = elim (Option-cases (find (Containers.has_id container_id) t.containers)) [
    | inl e ↦ ground (arith)
    | inr (row, e) ↦ record {
      row = row;
      found = e;
      owned = ground (arith, eq_iff row.user_id user_id);
      idle = ground (arith, find-none_iff (Jobs.active_on container_id) t.jobs);
      ready = ground arith;
      fresh = ground arith;
    }
  ]
