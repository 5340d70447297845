-- ===== src/System/Attended/Kept.antt =====
-- Every step keeps IsAttended.
use go_container_manager.Prelude.{
  ℕ, String, true, ◌≡◌, refl, inl, inr, List, ◌∷◌, ◌++◌, arith, count,
}
use go_container_manager.Domain.{Job, is_pending, create_container, job_retention}
use go_container_manager.Db.{Db}
use go_container_manager.Service.Containers
use go_container_manager.Service.Containers.{Inputs, create_job, enroll, store_container}
use go_container_manager.Service.Containers.Operations.{Operation, job_type}
use go_container_manager.Service.Jobs.{clean}
use go_container_manager.App.{interrupted_text}
use go_container_manager.Worker
use go_container_manager.Worker.{Runtime, Clock, Host, run_job, marked, ended, store_job}
use go_container_manager.Worker.Kept.{IsWorking}
use go_container_manager.System.{
  System, Creation, Step, received, admit, request, submit, enlist, send, give_up, receive, mark,
  work, settle, tick, restart, requested, enrolled, recovered,
}
use go_container_manager.System.Changes.{admit_lem, enroll_lem, store_container_lem, clean_cases}
use go_container_manager.System.Invariant.{Inv}
use go_container_manager.System.Guarded.{busy}
use go_container_manager.System.Guarded.Counts.{running_as-purge}
use go_container_manager.System.Guarded.Calls.{
  admit-IsWorking, enroll-IsWorking, store_container-IsWorking, clean-IsWorking, recover-IsWorking,
}
use go_container_manager.System.Attended.{IsAttended}
use go_container_manager.System.Attended.Working.{
  mark-IsAttended, work-IsAttended, settle-IsAttended,
}
use go_container_manager.System.Attended.Rows.{running_as-interrupt, recover-rows}

-- A start interrupts what was running.
pub restarted :
    {S : Type 0} (rt : Runtime S) (service : Containers.Config) (config : Worker.Config)
    (pool_size : ℕ) (s : System S)
    → IsWorking s.db
    → IsAttended (recovered rt service config pool_size s)
restarted rt service config pool_size s w = record {
  working = recover-IsWorking s.db w;
  attended = λ id target.
      rw (recover-rows s.db w)
        (omega (arith, running_as-interrupt interrupted_text id target s.db.jobs));
}

module _ {S : Type 0} (rt : Runtime S) (service : Containers.Config) (config : Worker.Config)
    (pool_size : ℕ) (s : System S) (v : Inv pool_size s) (a : IsAttended s) where
  same_rows :
      (db : Db) (creating : List Creation) (senders queue : List Job)
      → IsWorking db
      → db.jobs ≡ s.db.jobs
      → IsAttended (record s { db = db; creating = creating; senders = senders; queue = queue })
  same_rows db creating senders queue w e = record {
    working = w;
    attended = λ id target. rw e (a.attended id target);
  }

  -- A new row is pending.
  new_row :
      (db : Db) (creating : List Creation) (senders : List Job) (job : Job)
      → IsWorking db
      → db.jobs ≡ job ∷ s.db.jobs
      → is_pending job.status ≡ true
      → IsAttended (record s { db = db; creating = creating; senders = senders })
  unfolding count
  new_row db creating senders job w e p = record {
    working = w;
    attended = λ id target. rw e (ground (arith, a.attended id target));
  }

  request-IsAttended :
      (op : Operation) (x : Inputs) (user_id id : String)
      → IsAttended (requested rt service config pool_size op x user_id id s)
  unfolding create_job
  request-IsAttended op x user_id id =
      let job = create_job x user_id id (job_type op) in
      let after = (admit op user_id id job s.db).1 in
      let w = admit-IsWorking op user_id id job s.db a.working in
      elim (admit_lem op user_id id job s.db v.idle) [
        | inl (r, added, idle) ↦ new_row after s.creating _ job w added.added refl
        | inr (r, kept) ↦ same_rows after s.creating _ s.queue w kept
      ]

  enlist-IsAttended :
      (others : List Creation) (c : Creation)
      → IsAttended (enrolled rt service config pool_size others c s)
  unfolding create_job
  enlist-IsAttended others c =
      let x = c.inputs in
      let job = create_job x c.user_id x.container_id create_container in
      let after = (enroll x c.user_id s.db).1 in
      let w = enroll-IsWorking x c.user_id s.db a.working in
      elim (enroll_lem x c.user_id s.db v.idle).1 [
        | inl (r, added) ↦ new_row after others _ job w added.added refl
        | inr (r, kept) ↦ same_rows after others _ s.queue w kept
      ]

  receive-IsAttended :
      (job : Job) (rest : List Job)
      → IsAttended
          (record s { queue = rest; workers = record { job = job; stage = received } ∷ s.workers })
  unfolding busy
  receive-IsAttended job rest = record { working = a.working; attended = a.attended }

  tick-IsAttended : (now : ℕ) → IsAttended (record s { db = clean now s.db })
  tick-IsAttended now =
      let w = clean-IsWorking now s.db a.working in
      elim (clean_cases now s.db v.idle).1 [
        | inl kept ↦ same_rows (clean now s.db) s.creating s.senders s.queue w kept
        | inr purged ↦ record {
          working = w;
          attended = λ id target. rw purged (
              omega (
                arith,
                a.attended id target,
                running_as-purge now job_retention id target s.db.jobs,
              ));
        }
      ]

  -- What every step keeps.
  pub Step-IsAttended : {t : System S} → Step rt service config pool_size s t → IsAttended t
  Step-IsAttended (request op x user_id id) = request-IsAttended op x user_id id
  Step-IsAttended (submit x user_id name env command unused) =
      same_rows (store_container service x user_id name env command s.db).1 _ s.senders s.queue
        (store_container-IsWorking service x user_id name env command s.db a.working)
        (store_container_lem service x user_id name env command s.db v.idle).1
  Step-IsAttended (enlist before after c e unused) = enlist-IsAttended (before ++ after) c
  Step-IsAttended (send before after job e room) = same_rows s.db s.creating _ _ a.working refl
  Step-IsAttended (give_up before after job e) = same_rows s.db s.creating _ s.queue a.working refl
  Step-IsAttended (receive job rest e room) = receive-IsAttended job rest
  Step-IsAttended (mark before after job e) =
      mark-IsAttended rt service config pool_size s v a before after job e
  Step-IsAttended (work before after job clock e) =
      work-IsAttended rt service config pool_size s v a before after job clock e
  Step-IsAttended (settle before after job r now e) =
      settle-IsAttended rt service config pool_size s v a before after job r now e
  Step-IsAttended (tick now) = tick-IsAttended now
  Step-IsAttended restart = restarted rt service config pool_size s a.working
