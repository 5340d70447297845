-- ===== src/Worker/Outcome.antt =====
-- How a job ends in its row.
use go_container_manager.Prelude.{
  ◌≡◌, ◌∙◌, refl, List, [], ◌∷◌, eq_iff, arith, update_where, ap, ◌==◌,
}
use go_container_manager.Domain.{Job}
use go_container_manager.Db.{Db, statement}
use go_container_manager.Repo.Jobs
use go_container_manager.Repo.Jobs.{has_id, overwrite}
use go_container_manager.Repo.Containers.Laws.{HasJobs}
use go_container_manager.Worker.{
  Runtime, Config, Clock, Host, run_job, process, marked, ended, store_job,
}
use go_container_manager.Worker.Expected.{ended_row, update-ended}
use go_container_manager.Worker.Kept.{HasJobs-IsKept, IsWorking, IsWorking-IsKept}
use go_container_manager.Worker.Process.{run_job-keeps}

pub store_job-IsWorking :
    (j : Job) (db : Db)
    → IsWorking db
    → IsWorking (store_job j db)
      × ((store_job j db).jobs ≡ update_where (has_id j.id) (overwrite j) db.jobs)
      × ((store_job j db).containers ≡ db.containers)
unfolding store_job Jobs.update statement
store_job-IsWorking j db w = ground arith

overwrite_twice :
    (a b : Job) (rows : List Job)
    → a.id ≡ b.id
    → update_where (has_id b.id) (overwrite b) (update_where (has_id a.id) (overwrite a) rows)
      ≡ update_where (has_id b.id) (overwrite b) rows
unfolding update_where overwrite
overwrite_twice a b [] e = refl
overwrite_twice a b (r ∷ rows) e =
    ground (arith, overwrite_twice a b rows e, eq_iff r.id a.id, eq_iff r.id b.id)

-- On a database in which no statement fails, process leaves in its job's row how the work ended
-- (SUCCESS, or FAILED with the error's text) with the completion time, changes no other job, and
-- leaves the containers and the outside as the work left them.
pub process_lem :
    {S : Type 0} (rt : Runtime S) (cfg : Config) (clock : Clock) (job : Job) (h : Host S)
    → IsWorking h.db
    → let begun : Host S = record h { db = store_job (marked job) h.db } in
      let (r, done) = run_job rt cfg clock job.type (marked job) begun in
      ((process rt cfg clock job h).outside ≡ done.outside)
      × ((process rt cfg clock job h).db.containers ≡ done.db.containers)
      × ((process rt cfg clock job h).db.jobs
          ≡ update_where
              (λ j. j.id == job.id)
              (ended_row clock.completed r job.error_message)
              h.db.jobs)
unfolding process
process_lem rt cfg clock job h w =
    let begun : Host _ = record h { db = store_job (marked job) h.db } in
    let (r, done) = run_job rt cfg clock job.type (marked job) begun in
    let first = store_job-IsWorking (marked job) h.db w in
    let kept : HasJobs begun.db.jobs done.db =
      run_job-keeps rt cfg clock (marked job) (HasJobs begun.db.jobs) (HasJobs-IsKept begun.db.jobs)
        job.type begun
        (record { held = refl; no_tx = first.0.no_tx; not_aborted = first.0.not_aborted }) in
    let working : IsWorking done.db =
      run_job-keeps rt cfg clock (marked job) IsWorking IsWorking-IsKept job.type begun first.0 in
    let k = ended clock.completed r (marked job) in
    let last = store_job-IsWorking k done.db working in
    (
      refl,
      last.2,
      last.1
          ∙ ap (update_where (has_id job.id) (overwrite k)) (kept.held ∙ first.1)
          ∙ overwrite_twice (marked job) k h.db.jobs refl
          ∙ update-ended clock.completed r job h.db.jobs,
    )
