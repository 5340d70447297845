-- ===== src/System/Guarded/Passing.antt =====
-- The channel, the cleaner and a restart keep IsGuarded.
use go_container_manager.Prelude.{ℕ, ◌≡◌, inl, inr, List, [], ◌∷◌, ◌++◌, arith, count, count-append}
use go_container_manager.Domain.{Job, job_retention}
use go_container_manager.Service.Containers
use go_container_manager.Service.Containers.{
  Inputs, create_job, enroll, store_container, queue_capacity,
}
use go_container_manager.Service.Containers.{new_container}
use go_container_manager.Service.Jobs.{clean}
use go_container_manager.App.{recover}
use go_container_manager.Worker
use go_container_manager.Worker.{Runtime, Clock, run_job, marked, ended, store_job}
use go_container_manager.System.{System, received, recovered}
use go_container_manager.System.Changes.{clean_cases}
use go_container_manager.System.Invariant.{Inv, count-middle}
use go_container_manager.System.Lifecycle.{shelf}
use go_container_manager.System.Lifecycle.Refines.{clean-containers, recover-containers}
use go_container_manager.System.Guarded.{misfit, held, busy, IsGuarded}
use go_container_manager.System.Guarded.Counts.{
  count-waiting, pending_misfit-purge, running_as-purge,
}
use go_container_manager.System.Guarded.Calls.{clean-IsWorking, recover-IsWorking, recover-misfit}
use go_container_manager.System.Guarded.Requests.{shelf-containers, unchanged}

module _ {S : Type 0} (rt : Runtime S) (service : Containers.Config) (config : Worker.Config)
    (pool_size : ℕ) (s : System S) (v : Inv pool_size s) (g : IsGuarded s) where
  pub send-IsGuarded :
      (before after : List Job) (job : Job)
      → s.senders ≡ before ++ job ∷ after
      → IsGuarded (record s { senders = before ++ after; queue = s.queue ++ job ∷ [] })
  unfolding count
  send-IsGuarded before after job e = record {
    working = g.working;
    fit = record {
      jobs_fit = ground (
        arith,
        g.fit.jobs_fit,
        count-waiting (misfit (shelf s.db)) (held s.workers) s.queue s.senders,
        count-waiting (misfit (shelf s.db)) (held s.workers) (s.queue ++ job ∷ [])
            (before ++ after),
        count-append (misfit (shelf s.db)) s.queue (job ∷ []),
        count-middle (misfit (shelf s.db)) before after job,
      );
      rows_fit = g.fit.rows_fit;
      backed = g.fit.backed;
    };
  }

  pub give_up-IsGuarded :
      (before after : List Job) (job : Job)
      → s.senders ≡ before ++ job ∷ after
      → IsGuarded (record s { senders = before ++ after })
  unfolding count
  give_up-IsGuarded before after job e = record {
    working = g.working;
    fit = record {
      jobs_fit = ground (
        arith,
        g.fit.jobs_fit,
        count-waiting (misfit (shelf s.db)) (held s.workers) s.queue s.senders,
        count-waiting (misfit (shelf s.db)) (held s.workers) s.queue (before ++ after),
        count-middle (misfit (shelf s.db)) before after job,
      );
      rows_fit = g.fit.rows_fit;
      backed = g.fit.backed;
    };
  }

  pub receive-IsGuarded :
      (job : Job) (rest : List Job)
      → s.queue ≡ job ∷ rest
      → IsGuarded
          (record s { queue = rest; workers = record { job = job; stage = received } ∷ s.workers })
  unfolding count held busy
  receive-IsGuarded job rest e = record {
    working = g.working;
    fit = record {
      jobs_fit = ground (
        arith,
        g.fit.jobs_fit,
        count-waiting (misfit (shelf s.db)) (held s.workers) s.queue s.senders,
        count-waiting (misfit (shelf s.db)) (job ∷ held s.workers) rest s.senders,
      );
      rows_fit = g.fit.rows_fit;
      backed = g.fit.backed;
    };
  }

  pub tick-IsGuarded : (now : ℕ) → IsGuarded (record s { db = clean now s.db })
  tick-IsGuarded now =
      let w = clean-IsWorking now s.db g.working in
      let same = clean-containers now s.db in
      elim (clean_cases now s.db v.idle).1 [
        | inl kept ↦
            unchanged rt service config pool_size s v g (clean now s.db) s.creating w same kept
        | inr purged ↦ record {
          working = w;
          fit =
              rw (shelf-containers s.db (clean now s.db) same, purged)
                (record {
                  jobs_fit = g.fit.jobs_fit;
                  rows_fit = omega (
                    arith,
                    g.fit.rows_fit,
                    pending_misfit-purge now job_retention (shelf s.db) s.db.jobs,
                  );
                  backed = λ id target. omega (
                    arith,
                    g.fit.backed id target,
                    running_as-purge now job_retention id target s.db.jobs,
                  );
                });
        }
      ]

  pub restart-IsGuarded : IsGuarded (recovered rt service config pool_size s)
  unfolding count held busy
  restart-IsGuarded =
      let (db, queue) = recover s.db in
      let lem = recover-misfit (shelf s.db) s.db in
      record {
        working = recover-IsWorking s.db g.working;
        fit = rw (shelf-containers s.db db (recover-containers s.db)) (record {
          jobs_fit =
              omega (arith, lem.0, g.fit.rows_fit, count-waiting (misfit (shelf s.db)) [] queue []);
          rows_fit = omega (arith, lem.1, g.fit.rows_fit);
          backed = λ id target. omega arith;
        });
      }
