-- ===== src/System/Statements/Others.antt =====
-- The other steps keep IsLocked.
use go_container_manager.Prelude.{
  ℕ, ◌≤◌, String, ◌≡◌, ◌≢◌, refl, ap, inl, inr, Option, List, [], ◌∷◌, ◌++◌, eq_iff, arith, count,
  find, find-none_iff, update_where, delete_where,
}
use go_container_manager.Exec.{Result}
use go_container_manager.Domain.{Container, Job, JobType, job_retention}
use go_container_manager.Db.{ContainerRow, Db, statement}
use go_container_manager.Repo.Containers as Rows
use go_container_manager.Repo.Containers.{to_row}
use go_container_manager.Repo.Containers.Laws.{HasJobs}
use go_container_manager.Repo.Jobs.{active_on}
use go_container_manager.Service.Containers
use go_container_manager.Service.Containers.{
  Inputs, create_job, new_container, enroll, store_container,
}
use go_container_manager.Service.Jobs.{clean}
use go_container_manager.Worker
use go_container_manager.Worker.{Runtime, Clock, Host, run_job, marked, ended, store_job}
use go_container_manager.Worker.Process.{run_job-keeps}
use go_container_manager.Worker.Kept.{HasJobs-IsKept, IsWorking}
use go_container_manager.Worker.Outcome.{store_job-IsWorking}
use go_container_manager.Worker.Touches.{IsKeptAt, run_job-keeps_at}
use go_container_manager.System.{
  System, Step, Task, received, on_way, played, request, submit, enlist, send, give_up, receive,
  mark, work, settle, tick, restart, done_work,
}
use go_container_manager.System.Counting.{
  stale-active_as, active_on-mark, active_on-end, active_on-purge,
}
use go_container_manager.System.Changes.{store_container_lem, enroll_lem, clean_cases}
use go_container_manager.System.Invariant.{Inv}
use go_container_manager.System.Rows.{own_row}
use go_container_manager.System.Progress.{ended-is_active}
use go_container_manager.System.Working.{task_apart}
use go_container_manager.System.Lifecycle.Refines.{
  store_container_cases, enroll-containers, clean-containers,
}
use go_container_manager.System.Statements.{Transaction, locks, IsAllowed}
use go_container_manager.System.Statements.Locked.{locked_row, IsLocked, IsLocked-Spares}

-- The work on a job of another container leaves a row as it is.
find-update_other :
    (c : Container) (id : String) (rows : List ContainerRow)
    → c.id ≢ id
    → find (Rows.has_id id) (update_where (Rows.has_id c.id) (Rows.overwrite c) rows)
      ≡ find (Rows.has_id id) rows
unfolding find update_where Rows.overwrite
find-update_other c id [] ne = refl
find-update_other c id (r ∷ rows) ne =
    ground (arith, find-update_other c id rows ne, eq_iff r.id id, eq_iff r.id c.id)

find-delete_other :
    (gone id : String) (rows : List ContainerRow)
    → gone ≢ id
    → find (Rows.has_id id) (delete_where (Rows.has_id gone) rows) ≡ find (Rows.has_id id) rows
unfolding find delete_where
find-delete_other gone id [] ne = refl
find-delete_other gone id (r ∷ rows) ne =
    ground (arith, find-delete_other gone id rows ne, eq_iff r.id id, eq_iff r.id gone)

row-IsKeptAt :
    (type : JobType) (id other : String) (o : Option ContainerRow)
    → id ≢ other
    → IsKeptAt type id (λ db. find (Rows.has_id other) db.containers ≡ o)
unfolding Rows.find_by_id Rows.update Rows.delete statement
row-IsKeptAt type id other o ne = record {
  by_find = λ db h. ground arith;
  by_update = λ c db e st h. ground (arith, find-update_other c other db.containers);
  by_delete = λ db e h. ground (arith, find-delete_other id other db.containers ne);
}

module _ {S : Type 0} (rt : Runtime S) (service : Containers.Config) (config : Worker.Config)
    (pool_size : ℕ) (s : System S) (v : Inv pool_size s) (w : IsWorking s.db)
    (txs : List Transaction) (l : IsLocked s.db.tables txs) where
  -- The containers stay, and no job for a locked one becomes active.
  kept :
      (db : Db)
      → db.containers ≡ s.db.containers
      → ((id : String)
          → 1 ≤ count (locks id) txs
          → count (active_on id) s.db.jobs ≡ 0
          → count (active_on id) db.jobs ≡ 0)
      → IsLocked db.tables txs
  kept db same idle =
      IsLocked-Spares s.db.tables db.tables txs l
        (λ id held. record { row = rw same refl; idle = idle id held })

  same_jobs :
      (db : Db) → db.containers ≡ s.db.containers → db.jobs ≡ s.db.jobs → IsLocked db.tables txs
  same_jobs db same e = kept db same (λ id held i. rw e i)

  -- A new row is none of the locked ones.
  new_row :
      (db : Db) (r : ContainerRow)
      → db.containers ≡ r ∷ s.db.containers
      → db.jobs ≡ s.db.jobs
      → count (Rows.has_id r.id) s.db.containers ≡ 0
      → IsLocked db.tables txs
  unfolding find
  new_row db r e f fresh = IsLocked-Spares s.db.tables db.tables txs l (λ id held.
      let (row, found) = locked_row s.db.tables id txs l.held held in
      record {
        row = rw e (
            ground (
              arith,
              found,
              fresh,
              eq_iff r.id id,
              find-none_iff (Rows.has_id r.id) s.db.containers,
            ));
        idle = λ i. rw f i;
      })

  submit-IsLocked :
      (x : Inputs) (user_id name env : String) (command : List String)
      → IsLocked (store_container service x user_id name env command s.db).1.tables txs
  submit-IsLocked x user_id name env command =
      let after = (store_container service x user_id name env command s.db).1 in
      let jobs = (store_container_lem service x user_id name env command s.db v.idle).1 in
      elim (store_container_cases service x user_id name env command s.db) [
        | inl e ↦ same_jobs after e jobs
        | inr (e, fresh) ↦
            unfold new_container to_row in
            new_row after (to_row (new_container x user_id name env command)) e jobs fresh
      ]

  enlist-IsLocked :
      (x : Inputs) (user_id : String)
      → count (locks x.container_id) txs ≡ 0
      → IsLocked (enroll x user_id s.db).1.tables txs
  unfolding create_job count
  enlist-IsLocked x user_id free =
      let after = (enroll x user_id s.db).1 in
      kept after (enroll-containers x user_id s.db) (λ id held i.
        ground (arith, enroll_lem x user_id s.db v.idle, free, held, eq_iff x.container_id id))

  mark-IsLocked :
      (before after : List Task) (job : Job)
      → s.workers ≡ before ++ record { job = job; stage = received } ∷ after
      → IsLocked (store_job (marked job) s.db).tables txs
  mark-IsLocked before after job e =
      let t : Task = record { job = job; stage = received } in
      let stored = store_job-IsWorking (marked job) s.db w in
      kept (store_job (marked job) s.db) stored.2 (λ id held i. rw stored.1 (
        omega (
          arith,
          i,
          active_on-mark (marked job) id s.db.jobs,
          own_row s.db.jobs (played s) (on_way (before ++ after) s.queue s.senders) job job
              (λ k x.
                (task_apart rt service config pool_size s v before after t t e refl refl k x).0)
              refl v.sound,
          stale-active_as job.id job.target_resource_id s.db.jobs,
          v.sound.one_row job.id,
        )))

  work-IsLocked :
      (job : Job) (clock : Clock)
      → count (locks job.target_resource_id) txs ≡ 0
      → IsLocked (done_work rt service config pool_size clock job s).1.db.tables txs
  work-IsLocked job clock free =
      let h = (done_work rt service config pool_size clock job s).1 in
      let begun : Host S = record { db = s.db; outside = s.outside } in
      let jobs : HasJobs s.db.jobs h.db =
        run_job-keeps rt config clock job (HasJobs s.db.jobs) (HasJobs-IsKept s.db.jobs) job.type
          begun (record { held = refl; no_tx = v.idle.no_tx; not_aborted = v.idle.not_aborted }) in
      let id = job.target_resource_id in
      IsLocked-Spares s.db.tables h.db.tables txs l (λ other held. record {
        row =
            run_job-keeps_at rt config clock job id refl
              (λ db.
                find (Rows.has_id other) db.containers ≡ find (Rows.has_id other) s.db.containers)
              job.type
              (row-IsKeptAt job.type id other (find (Rows.has_id other) s.db.containers)
                (λ e. omega (arith, free, held, ap (λ i. count (locks i) txs) e)))
              begun refl;
        idle = λ i. rw jobs.held i;
      })

  settle-IsLocked :
      (job : Job) (r : Result (Unit {0})) (now : ℕ)
      → IsLocked (store_job (ended now r job) s.db).tables txs
  settle-IsLocked job r now =
      let stored = store_job-IsWorking (ended now r job) s.db w in
      kept (store_job (ended now r job) s.db) stored.2 (λ id held i. rw stored.1 (
        omega (arith, i, active_on-end (ended now r job) id s.db.jobs (ended-is_active now r job))))

  tick-IsLocked : (now : ℕ) → IsLocked (clean now s.db).tables txs
  tick-IsLocked now = elim (clean_cases now s.db v.idle).1 [
    | inl e ↦ same_jobs (clean now s.db) (clean-containers now s.db) e
    | inr e ↦
        kept (clean now s.db) (clean-containers now s.db)
          (λ id held i. rw e (omega (arith, i, active_on-purge now job_retention id s.db.jobs)))
  ]

  -- Every step that is allowed.
  pub Step-IsLocked :
      {t : System S} (st : Step rt service config pool_size s t)
      → IsAllowed rt service config pool_size txs st
      → IsLocked t.db.tables txs
  Step-IsLocked (request op x user_id id) a = absurd a
  Step-IsLocked (submit x user_id name env command unused) a =
      submit-IsLocked x user_id name env command
  Step-IsLocked (enlist before after c e unused) a = enlist-IsLocked c.inputs c.user_id a
  Step-IsLocked (send before after job e room) a = l
  Step-IsLocked (give_up before after job e) a = l
  Step-IsLocked (receive job rest e room) a = l
  Step-IsLocked (mark before after job e) a = mark-IsLocked before after job e
  Step-IsLocked (work before after job clock e) a = work-IsLocked job clock a
  Step-IsLocked (settle before after job r now e) a = settle-IsLocked job r now
  Step-IsLocked (tick now) a = tick-IsLocked now
  Step-IsLocked restart a = absurd a
