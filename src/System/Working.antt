-- ===== src/System/Working.antt =====
-- Workers, the cleaner and a restart keep the invariant.
use go_container_manager.Prelude.{
  ℕ, ap, String, false, ◌≡◌, refl, inl, inr, List, [], ◌∷◌, ◌++◌, arith, count, length,
}
use go_container_manager.Exec.{Result, ok, err}
use go_container_manager.Domain.{Job, is_active, job_retention}
use go_container_manager.Db.{Db}
use go_container_manager.Repo.Containers.Laws.{HasJobs}
use go_container_manager.Service.Containers
use go_container_manager.Service.Containers.{Inputs, create_job, queue_capacity}
use go_container_manager.Service.Containers.Faults.{IsIdle}
use go_container_manager.Worker
use go_container_manager.Worker.{Runtime, Clock, Host, run_job, marked, ended, store_job}
use go_container_manager.Worker.Process.{run_job-keeps}
use go_container_manager.Worker.Kept.{HasJobs-IsKept}
use go_container_manager.App.{recover}
use go_container_manager.Service.Jobs.{clean}
use go_container_manager.System.{
  System, Task, received, ready, worked, on_way, played, recovered, done_work,
}
use go_container_manager.System.Counting.{matches}
use go_container_manager.System.Changes.{store_job_lem, clean_cases, recover-IsRecovered}
use go_container_manager.System.Rows.{
  IsSound, IsSound-fewer, IsSound-end, IsSound-mark, IsSound-purge, IsSound-restart,
}
use go_container_manager.System.Invariant.{Inv, count-on_way, count-task, length-middle, same_jobs}

ended-is_active :
    (now : ℕ) (r : Result (Unit {0})) (job : Job) → is_active (ended now r job).status ≡ false
ended-is_active now (ok _) job = refl
ended-is_active now (err _) job = refl

module _ {S : Type 0} (rt : Runtime S) (service : Containers.Config) (config : Worker.Config)
    (pool_size : ℕ) (s : System S) (v : Inv pool_size s) where
  -- One of the tasks, apart from the rest.
  pub task_apart :
      (before after : List Task) (t u : Task)
      → s.workers ≡ before ++ t ∷ after
      → u.job.id ≡ t.job.id
      → u.job.target_resource_id ≡ t.job.target_resource_id
      → (id target : String)
      → (count (matches id target) (played s)
          ≡ count (matches id target) (t.job ∷ on_way (before ++ after) s.queue s.senders))
        × (count (matches id target) (played s)
            ≡ count (matches id target) (on_way (before ++ u ∷ after) s.queue s.senders))
  unfolding count
  task_apart before after t u e same target_same id target = rw e (
      ground (
        arith,
        count-on_way (matches id target) (before ++ t ∷ after) s.queue s.senders,
        count-on_way (matches id target) (before ++ u ∷ after) s.queue s.senders,
        count-on_way (matches id target) (before ++ after) s.queue s.senders,
        count-task (matches id target) before after t,
        count-task (matches id target) before after u,
      ))

  -- A task goes on to its next stage.
  restaged :
      (before after : List Task) (t u : Task) (db : Db) (outside : S)
      → s.workers ≡ before ++ t ∷ after
      → u.job.id ≡ t.job.id
      → u.job.target_resource_id ≡ t.job.target_resource_id
      → IsIdle db
      → IsSound db.jobs (played s)
      → Inv pool_size (record s { db = db; outside = outside; workers = before ++ u ∷ after })
  restaged before after t u db outside e same target_same i sound = record {
    idle = i;
    sound =
        IsSound-fewer db.jobs (played s) _ sound
          λ id target. omega (arith, (task_apart before after t u e same target_same id target).1);
    queue_bound = v.queue_bound;
    pool_bound = omega (
      arith,
      v.pool_bound,
      ap length e,
      length-middle before after t,
      length-middle before after u,
    );
  }

  pub mark-Inv :
      (before after : List Task) (job : Job)
      → s.workers ≡ before ++ record { job = job; stage = received } ∷ after
      → Inv pool_size (record s {
        db = store_job (marked job) s.db;
        workers = before ++ record { job = marked job; stage = ready } ∷ after;
      })
  mark-Inv before after job e =
      let t : Task = record { job = job; stage = received } in
      let u : Task = record { job = marked job; stage = ready } in
      let lem = store_job_lem (marked job) s.db v.idle in
      restaged before after t u (store_job (marked job) s.db) s.outside e refl refl lem.0
        (elim lem.1 [
          | inl same ↦ rw same v.sound
          | inr new ↦ rw new (
              IsSound-mark s.db.jobs (played s) (on_way (before ++ after) s.queue s.senders) job
                (marked job) (λ id target. (task_apart before after t u e refl refl id target).0)
                refl v.sound refl)
        ])

  pub work-Inv :
      (before after : List Task) (job : Job) (clock : Clock)
      → s.workers ≡ before ++ record { job = job; stage = ready } ∷ after
      → let (r, h) = done_work rt service config pool_size clock job s in
        Inv pool_size (record s {
          db = h.db;
          outside = h.outside;
          workers = before ++ record { job = job; stage = worked r } ∷ after;
        })
  work-Inv before after job clock e =
      let t : Task = record { job = job; stage = ready } in
      let (r, h) = done_work rt service config pool_size clock job s in
      let kept : HasJobs s.db.jobs h.db =
        run_job-keeps rt config clock job (HasJobs s.db.jobs) (HasJobs-IsKept s.db.jobs) job.type
          (record { db = s.db; outside = s.outside })
          (record { held = refl; no_tx = v.idle.no_tx; not_aborted = v.idle.not_aborted }) in
      restaged before after t (record { job = job; stage = worked r }) h.db h.outside e refl refl
        (record { no_tx = kept.no_tx; not_aborted = kept.not_aborted }) (rw kept.held v.sound)

  pub settle-Inv :
      (before after : List Task) (job : Job) (r : Result (Unit {0})) (now : ℕ)
      → s.workers ≡ before ++ record { job = job; stage = worked r } ∷ after
      → Inv pool_size
          (record s { db = store_job (ended now r job) s.db; workers = before ++ after })
  unfolding count
  settle-Inv before after job r now e =
      let t : Task = record { job = job; stage = worked r } in
      let k = ended now r job in
      let lem = store_job_lem k s.db v.idle in
      let apart : (id target : String) → _ =
        λ id target. (task_apart before after t t e refl refl id target).0 in
      record {
        idle = lem.0;
        sound = elim lem.1 [
          | inl same ↦ rw same (
              IsSound-fewer s.db.jobs (played s) _ v.sound
                (λ id target. ground (arith, apart id target)))
          | inr new ↦ rw new (
              IsSound-end s.db.jobs (played s) (on_way (before ++ after) s.queue s.senders) job k
                apart refl v.sound (ended-is_active now r job))
        ];
        queue_bound = v.queue_bound;
        pool_bound = omega (arith, v.pool_bound, ap length e, length-middle before after t);
      }

  pub tick-Inv : (now : ℕ) → Inv pool_size (record s { db = clean now s.db })
  tick-Inv now =
      let lem = clean_cases now s.db v.idle in
      elim lem.1 [
        | inl same ↦ same_jobs pool_size s v (clean now s.db) s.creating lem.0 same
        | inr new ↦ record {
          idle = lem.0;
          sound = rw new (IsSound-purge now job_retention s.db.jobs (played s) v.sound);
          queue_bound = v.queue_bound;
          pool_bound = v.pool_bound;
        }
      ]

  pub restart-Inv : Inv pool_size (recovered rt service config pool_size s)
  unfolding count
  restart-Inv =
      let (db, queue) = recover s.db in
      let lem = recover-IsRecovered s.db v.idle in
      record {
        idle = lem.0;
        sound =
            IsSound-fewer db.jobs queue _
              (IsSound-restart s.db.jobs (played s) db.jobs queue v.sound lem.1)
              (λ id target. ground (arith, count-on_way (matches id target) [] queue []));
        queue_bound = lem.1.bounded;
        pool_bound = omega arith;
      }
