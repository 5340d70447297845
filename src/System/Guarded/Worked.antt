-- ===== src/System/Guarded/Worked.antt =====
-- A worker that works on a job or settles it keeps IsGuarded.
use go_container_manager.Prelude.{
  ℕ, ◌+◌, ◌≤◌, String, Bool, false, ◌≡◌, ◌≢◌, refl, sym, List, [], ◌∷◌, ◌++◌, arith, eq_iff,
  eq_refl, count, ap,
}
use mathlib.Core.Path.{subst}
use go_container_manager.Exec.{Result, ok, err}
use go_container_manager.Domain.{Job, is_pending}
use go_container_manager.Db.{Db}
use go_container_manager.Repo.Containers.Laws.{HasJobs}
use go_container_manager.Service.Containers
use go_container_manager.Worker
use go_container_manager.Worker.{Runtime, Clock, Host, run_job, marked, ended, store_job}
use go_container_manager.Worker.Process.{run_job-keeps}
use go_container_manager.Worker.Kept.{HasJobs-IsKept, IsWorking, IsWorking-IsKept}
use go_container_manager.Worker.Outcome.{store_job-IsWorking}
use go_container_manager.Worker.Touches.{run_job-keeps_at}
use go_container_manager.System.{System, Task, ready, worked, played, done_work}
use go_container_manager.System.Counting.{matches}
use go_container_manager.System.Invariant.{Inv}
use go_container_manager.System.Rows.{IsSound-fewer}
use go_container_manager.System.Lifecycle.{shelf, others-IsKeptAt}
use go_container_manager.System.Guarded.{misfit, running_as, held, busy, IsFit, IsGuarded}
use go_container_manager.System.Guarded.Counts.{
  count-waiting, waiting-le, count-held, count-busy, for_target, misfit-others,
  pending_misfit-others, pending_misfit-update, running_as-other,
}
use go_container_manager.System.Guarded.Alone.{alone, pending_alone}
use go_container_manager.System.Guarded.Requests.{shelf-containers}
use go_container_manager.System.Guarded.Marking.{rest, apart, unmarked}

ended-is_pending :
    (now : ℕ) (r : Result (Unit {0})) (job : Job) → is_pending (ended now r job).status ≡ false
ended-is_pending now (ok _) job = refl
ended-is_pending now (err _) job = refl

module _ {S : Type 0} (rt : Runtime S) (service : Containers.Config) (config : Worker.Config)
    (pool_size : ℕ) (s : System S) (v : Inv pool_size s) (g : IsGuarded s) where
  -- The work on a job changes the status of its own container, which no other job is for.
  at_work :
      (before after : List Task) (job : Job) (r : Result (Unit {0})) (db : Db) (outside : S)
      → s.workers ≡ before ++ record { job = job; stage = ready } ∷ after
      → IsWorking db
      → db.jobs ≡ s.db.jobs
      → ((other : String) → other ≢ job.target_resource_id → shelf db other ≡ shelf s.db other)
      → IsGuarded (record s {
        db = db;
        outside = outside;
        workers = before ++ record { job = job; stage = worked r } ∷ after;
      })
  unfolding count
  at_work before after job r db outside e w kept others =
      let t : Task = record { job = job; stage = ready } in
      let u : Task = record { job = job; stage = worked r } in
      let id = job.target_resource_id in
      let others_on = rest rt service config pool_size s v g before after t e in
      let sound = IsSound-fewer s.db.jobs (played s) (job ∷ others_on) v.sound (λ i target.
        omega (arith, apart rt service config pool_size s v g before after t e i target)) in
      let still = held (before ++ after) ++ s.queue ++ s.senders in
      let changed = misfit-others (shelf s.db) (shelf db) id others still (
        omega (
          arith,
          alone s.db.jobs others_on job sound,
          waiting-le (for_target id) (before ++ after) s.queue s.senders,
        )) in
      let split : (q : Job → Bool)
          → count q (busy s.workers) ≡ count q (job ∷ []) + count q (busy (before ++ after)) =
        λ q. omega (arith, ap (λ ts. count q (busy ts)) e, count-busy q before after t) in
      let own : 1 ≤ count (running_as job.id id) s.db.jobs =
        ground
          (arith, g.fit.backed job.id id, split (matches job.id id), eq_refl job.id, eq_refl id) in
      record {
        working = w;
        fit =
            subst
              (λ rows.
                IsFit (shelf db) rows (held (before ++ u ∷ after) ++ s.queue ++ s.senders)
                  (busy (before ++ u ∷ after)))
              (sym kept)
              (record {
                jobs_fit = omega (
                  arith,
                  g.fit.jobs_fit,
                  changed,
                  ap (λ ts. count (misfit (shelf s.db)) (held ts)) e,
                  count-held (misfit (shelf s.db)) before after t,
                  count-held (misfit (shelf db)) before after u,
                  count-waiting (misfit (shelf s.db)) (held s.workers) s.queue s.senders,
                  count-waiting (misfit (shelf s.db)) (held (before ++ after)) s.queue s.senders,
                  count-waiting (misfit (shelf db)) (held (before ++ after)) s.queue s.senders,
                  count-waiting (misfit (shelf db)) (held (before ++ u ∷ after)) s.queue s.senders,
                );
                rows_fit = omega (
                  arith,
                  g.fit.rows_fit,
                  pending_misfit-others (shelf s.db) (shelf db) id others s.db.jobs
                      (pending_alone s.db.jobs id (played s) job.id v.sound own),
                );
                backed = λ i target. omega (
                  arith,
                  g.fit.backed i target,
                  split (matches i target),
                  count-busy (matches i target) before after u,
                );
              });
      }

  pub work-IsGuarded :
      (before after : List Task) (job : Job) (clock : Clock)
      → s.workers ≡ before ++ record { job = job; stage = ready } ∷ after
      → let (r, h) = done_work rt service config pool_size clock job s in
        IsGuarded (record s {
          db = h.db;
          outside = h.outside;
          workers = before ++ record { job = job; stage = worked r } ∷ after;
        })
  work-IsGuarded before after job clock e =
      let (r, h) = done_work rt service config pool_size clock job s in
      let id = job.target_resource_id in
      let begun : Host S = record { db = s.db; outside = s.outside } in
      let kept : HasJobs s.db.jobs h.db =
        run_job-keeps rt config clock job (HasJobs s.db.jobs) (HasJobs-IsKept s.db.jobs) job.type
          begun (record { held = refl; no_tx = v.idle.no_tx; not_aborted = v.idle.not_aborted }) in
      let working : IsWorking h.db =
        run_job-keeps rt config clock job IsWorking IsWorking-IsKept job.type begun g.working in
      at_work before after job r h.db h.outside e working kept.held (λ other ne.
        run_job-keeps_at rt config clock job id refl (λ db. shelf db other ≡ shelf s.db other)
          job.type (others-IsKeptAt job.type id other (shelf s.db other) ne) begun refl)

  pub settle-IsGuarded :
      (before after : List Task) (job : Job) (r : Result (Unit {0})) (now : ℕ)
      → s.workers ≡ before ++ record { job = job; stage = worked r } ∷ after
      → IsGuarded (record s { db = store_job (ended now r job) s.db; workers = before ++ after })
  unfolding count
  settle-IsGuarded before after job r now e =
      let f = shelf s.db in
      let t : Task = record { job = job; stage = worked r } in
      let k = ended now r job in
      let stored = store_job-IsWorking k s.db g.working in
      record {
        working = stored.0;
        fit =
            rw (shelf-containers s.db (store_job k s.db) stored.2, stored.1)
              (record {
                jobs_fit = omega (
                  arith,
                  g.fit.jobs_fit,
                  ap (λ ts. count (misfit f) (held ts)) e,
                  count-held (misfit f) before after t,
                  count-waiting (misfit f) (held s.workers) s.queue s.senders,
                  count-waiting (misfit f) (held (before ++ after)) s.queue s.senders,
                );
                rows_fit = omega (
                  arith,
                  g.fit.rows_fit,
                  pending_misfit-update k f s.db.jobs (ended-is_pending now r job),
                );
                backed = λ id target. ground (
                  arith,
                  eq_iff job.id id,
                  unmarked rt service config pool_size s v g before after t e target,
                  g.fit.backed id target,
                  ap (λ ts. count (matches id target) (busy ts)) e,
                  count-busy (matches id target) before after t,
                  running_as-other k id target s.db.jobs,
                );
              });
      }
