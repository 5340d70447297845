-- ===== src/System/Attended/Working.antt =====
-- A worker that marks a job, works on it or settles it keeps IsAttended.
use go_container_manager.Prelude.{
  ℕ, ◌≤◌, String, false, ◌≡◌, refl, ap, inl, inr, List, ◌∷◌, ◌++◌, ◌==◌, eq_iff, arith, count,
  update_where, Bool-cases,
}
use go_container_manager.Exec.{Result, ok, err}
use go_container_manager.Domain.{Job, is_running_job}
use go_container_manager.Repo.Containers.Laws.{HasJobs}
use go_container_manager.Repo.Jobs.{has_id, overwrite}
use go_container_manager.Service.Containers
use go_container_manager.Service.Containers.{Inputs, create_job, enroll, store_container}
use go_container_manager.Worker
use go_container_manager.Worker.{Runtime, Clock, Host, run_job, marked, ended, store_job}
use go_container_manager.Worker.Process.{run_job-keeps}
use go_container_manager.Worker.Kept.{HasJobs-IsKept, IsWorking, IsWorking-IsKept}
use go_container_manager.Worker.Outcome.{store_job-IsWorking}
use go_container_manager.System.{System, Task, received, ready, worked, on_way, played, done_work}
use go_container_manager.System.Counting.{
  matches, active_as-active_as, active_as-mark, stale-active_as, has_id-update,
}
use go_container_manager.System.Invariant.{Inv}
use go_container_manager.System.Rows.{own_row}
use go_container_manager.System.Working.{task_apart}
use go_container_manager.System.Guarded.{running_as, busy}
use go_container_manager.System.Guarded.Counts.{count-busy, running_as-other}
use go_container_manager.System.Attended.{IsAttended}
use go_container_manager.System.Attended.Rows.{running_as-active_as, running_as-ended}

ended-is_running :
    (now : ℕ) (r : Result (Unit {0})) (job : Job) → is_running_job (ended now r job).status ≡ false
ended-is_running now (ok _) job = refl
ended-is_running now (err _) job = refl

module _ {S : Type 0} (rt : Runtime S) (service : Containers.Config) (config : Worker.Config)
    (pool_size : ℕ) (s : System S) (v : Inv pool_size s) (a : IsAttended s) where
  -- The row that is marked is the one of the task.
  marked_attended :
      (before after : List Task) (job : Job)
      → s.workers ≡ before ++ record { job = job; stage = received } ∷ after
      → (id target : String)
      → count
          (running_as id target)
          (update_where (has_id job.id) (overwrite (marked job)) s.db.jobs)
        ≤ count
            (matches id target)
            (busy (before ++ record { job = marked job; stage = ready } ∷ after))
  unfolding count
  marked_attended before after job e id target =
      let t : Task = record { job = job; stage = received } in
      let u : Task = record { job = marked job; stage = ready } in
      let k = marked job in
      let rows = update_where (has_id job.id) (overwrite k) s.db.jobs in
      let split = count-busy (matches id target) before after u in
      elim (Bool-cases (job.id == id)) [
        | inl same ↦ ground (
          arith,
          split,
          eq_iff job.id id,
          eq_iff job.target_resource_id target,
          own_row s.db.jobs (played s) (on_way (before ++ after) s.queue s.senders) job job
              (λ i x.
                (task_apart rt service config pool_size s v before after t t e refl refl i x).0)
              refl v.sound,
          active_as-mark k job.id job.target_resource_id s.db.jobs refl,
          has_id-update k job.id s.db.jobs,
          v.sound.one_row job.id,
          stale-active_as job.id target rows,
          active_as-active_as job.id target job.target_resource_id rows,
          running_as-active_as job.id target rows,
        )
        | inr differ ↦ ground (
          arith,
          split,
          eq_iff job.id id,
          a.attended id target,
          ap (λ ts. count (matches id target) (busy ts)) e,
          count-busy (matches id target) before after t,
          running_as-other k id target s.db.jobs,
        )
      ]

  pub mark-IsAttended :
      (before after : List Task) (job : Job)
      → s.workers ≡ before ++ record { job = job; stage = received } ∷ after
      → IsAttended (record s {
        db = store_job (marked job) s.db;
        workers = before ++ record { job = marked job; stage = ready } ∷ after;
      })
  mark-IsAttended before after job e =
      let stored = store_job-IsWorking (marked job) s.db a.working in
      record {
        working = stored.0;
        attended = λ id target. rw stored.1 (marked_attended before after job e id target);
      }

  -- A worker whose task goes on or ends.
  pub work-IsAttended :
      (before after : List Task) (job : Job) (clock : Clock)
      → s.workers ≡ before ++ record { job = job; stage = ready } ∷ after
      → let (r, h) = done_work rt service config pool_size clock job s in
        IsAttended (record s {
          db = h.db;
          outside = h.outside;
          workers = before ++ record { job = job; stage = worked r } ∷ after;
        })
  work-IsAttended before after job clock e =
      let (r, h) = done_work rt service config pool_size clock job s in
      let begun : Host S = record { db = s.db; outside = s.outside } in
      let kept : HasJobs s.db.jobs h.db =
        run_job-keeps rt config clock job (HasJobs s.db.jobs) (HasJobs-IsKept s.db.jobs) job.type
          begun (record { held = refl; no_tx = v.idle.no_tx; not_aborted = v.idle.not_aborted }) in
      record {
        working =
            run_job-keeps rt config clock job IsWorking IsWorking-IsKept job.type begun a.working;
        attended = λ id target. rw kept.held (
            omega (
              arith,
              a.attended id target,
              ap (λ ts. count (matches id target) (busy ts)) e,
              count-busy (matches id target) before after (record { job = job; stage = ready }),
              count-busy (matches id target) before after (record { job = job; stage = worked r }),
            ));
      }

  settled_attended :
      (before after : List Task) (job : Job) (r : Result (Unit {0})) (now : ℕ)
      → s.workers ≡ before ++ record { job = job; stage = worked r } ∷ after
      → (id target : String)
      → count
          (running_as id target)
          (update_where (has_id job.id) (overwrite (ended now r job)) s.db.jobs)
        ≤ count (matches id target) (busy (before ++ after))
  unfolding count
  settled_attended before after job r now e id target = ground (
    arith,
    eq_iff job.id id,
    a.attended id target,
    ap (λ ts. count (matches id target) (busy ts)) e,
    count-busy (matches id target) before after (record { job = job; stage = worked r }),
    running_as-other (ended now r job) id target s.db.jobs,
    running_as-ended (ended now r job) target s.db.jobs (ended-is_running now r job),
  )

  pub settle-IsAttended :
      (before after : List Task) (job : Job) (r : Result (Unit {0})) (now : ℕ)
      → s.workers ≡ before ++ record { job = job; stage = worked r } ∷ after
      → IsAttended (record s { db = store_job (ended now r job) s.db; workers = before ++ after })
  settle-IsAttended before after job r now e =
      let stored = store_job-IsWorking (ended now r job) s.db a.working in
      record {
        working = stored.0;
        attended = λ id target. rw stored.1 (settled_attended before after job r now e id target);
      }
