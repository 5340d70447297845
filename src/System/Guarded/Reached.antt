-- ===== src/System/Guarded/Reached.antt =====
-- What a worker finds when it works on a job.
use go_container_manager.Prelude.{
  ℕ, true, ◌≡◌, refl, inl, inr, ap, List, ◌∷◌, ◌++◌, arith, count, Bool-cases,
}
use go_container_manager.Domain.{Job}
use go_container_manager.Db.{Db}
use go_container_manager.Service.Containers
use go_container_manager.Worker
use go_container_manager.Worker.{Runtime}
use go_container_manager.Worker.Kept.{IsWorking}
use go_container_manager.System.{
  System, Step, Reach, Task, ready, request, submit, enlist, send, give_up, receive, mark, work,
  settle, tick, restart, here, next,
}
use go_container_manager.System.Invariant.{Inv}
use go_container_manager.System.Exclusion.{Reach-Inv, booting}
use go_container_manager.System.Lifecycle.{shelf}
use go_container_manager.System.Guarded.{fits, misfit, pending_misfit, held, busy, IsGuarded}
use go_container_manager.System.Guarded.Counts.{count-held, count-waiting}
use go_container_manager.System.Guarded.Requests.{
  request-IsGuarded, submit-IsGuarded, enlist-IsGuarded,
}
use go_container_manager.System.Guarded.Passing.{
  send-IsGuarded, give_up-IsGuarded, receive-IsGuarded, tick-IsGuarded, restart-IsGuarded,
}
use go_container_manager.System.Guarded.Worked.{work-IsGuarded, settle-IsGuarded}
use go_container_manager.System.Guarded.Marking.{mark-IsGuarded}

booting-IsGuarded :
    {S : Type 0} (db : Db) (outside : S)
    → IsWorking db
    → count (pending_misfit (shelf db)) db.jobs ≡ 0
    → IsGuarded (booting db outside)
unfolding count held busy
booting-IsGuarded db outside w h = record {
  working = w;
  fit = record { jobs_fit = refl; rows_fit = h; backed = λ id target. omega arith };
}

module _ {S : Type 0} (rt : Runtime S) (service : Containers.Config) (config : Worker.Config)
    (pool_size : ℕ) where
  Step-IsGuarded :
      {s t : System S}
      → Step rt service config pool_size s t
      → Inv pool_size s
      → IsGuarded s
      → IsGuarded t
  Step-IsGuarded {s} (request op x user_id id) v g =
      request-IsGuarded rt service config pool_size s v g op x user_id id
  Step-IsGuarded {s} (submit x user_id name env command unused) v g =
      submit-IsGuarded rt service config pool_size s v g x user_id name env command unused
  Step-IsGuarded {s} (enlist before after c e unused) v g =
      enlist-IsGuarded rt service config pool_size s v g (before ++ after) c
  Step-IsGuarded {s} (send before after job e room) v g =
      send-IsGuarded rt service config pool_size s v g before after job e
  Step-IsGuarded {s} (give_up before after job e) v g =
      give_up-IsGuarded rt service config pool_size s v g before after job e
  Step-IsGuarded {s} (receive job rest e room) v g =
      receive-IsGuarded rt service config pool_size s v g job rest e
  Step-IsGuarded {s} (mark before after job e) v g =
      mark-IsGuarded rt service config pool_size s v g before after job e
  Step-IsGuarded {s} (work before after job clock e) v g =
      work-IsGuarded rt service config pool_size s v g before after job clock e
  Step-IsGuarded {s} (settle before after job r now e) v g =
      settle-IsGuarded rt service config pool_size s v g before after job r now e
  Step-IsGuarded {s} (tick now) v g = tick-IsGuarded rt service config pool_size s v g now
  Step-IsGuarded {s} restart v g = restart-IsGuarded rt service config pool_size s v g

  Reach-IsGuarded :
      {s t : System S}
      → Reach rt service config pool_size s t
      → Inv pool_size s
      → IsGuarded s
      → IsGuarded t
  Reach-IsGuarded here v g = g
  Reach-IsGuarded (next r st) v g =
      Step-IsGuarded st (Reach-Inv rt service config pool_size r v) (Reach-IsGuarded r v g)

  -- From a start of the server on a database that satisfies the invariant, whose pending jobs fit
  -- their containers and in which no statement fails, in every state that the server reaches,
  -- where no job of a new container is active yet when its Create stores its job, a worker that
  -- has a start or delete job at hand finds its container there and not running, and one that has
  -- a stop job finds it there and running: what the guard of the request checked still holds when
  -- the work begins.
  pub works_guarded :
      (db : Db) (outside : S) (t : System S) (before after : List Task) (job : Job)
      → Inv pool_size (booting db outside)
      → IsWorking db
      → count (pending_misfit (shelf db)) db.jobs ≡ 0
      → Reach rt service config pool_size (booting db outside) t
      → t.workers ≡ before ++ record { job = job; stage = ready } ∷ after
      → fits job.type (shelf t.db job.target_resource_id) ≡ true
  unfolding count
  works_guarded db outside t before after job v w h r e =
      let p = misfit (shelf t.db) in
      let g = Reach-IsGuarded r v (booting-IsGuarded db outside w h) in
      let u : Task = record { job = job; stage = ready } in
      elim (Bool-cases (fits job.type (shelf t.db job.target_resource_id))) [
        | inl fit ↦ fit
        | inr fit ↦ absurd (
            ground (
              arith,
              g.fit.jobs_fit,
              fit,
              ap (λ ts. count p (held ts)) e,
              count-held p before after u,
              count-waiting p (held t.workers) t.queue t.senders,
            ))
      ]
