-- ===== src/System/Guarded/Marking.antt =====
-- A worker that marks its job keeps IsGuarded.
use go_container_manager.Prelude.{
  ℕ, ◌≤◌, String, ◌≡◌, refl, inl, inr, List, [], ◌∷◌, ◌++◌, arith, ◌==◌, eq_iff, count,
  update_where, Bool-cases, ap,
}
use go_container_manager.Domain.{Job}
use go_container_manager.Repo.Jobs.{has_id, overwrite}
use go_container_manager.Service.Containers
use go_container_manager.Worker
use go_container_manager.Worker.{Runtime, Clock, Host, run_job, marked, ended, store_job}
use go_container_manager.Worker.Outcome.{store_job-IsWorking}
use go_container_manager.System.{System, Task, received, ready, on_way, played}
use go_container_manager.System.Counting.{matches, active_as}
use go_container_manager.System.Invariant.{Inv, count-on_way}
use go_container_manager.System.Rows.{own_row, no_other}
use go_container_manager.System.Working.{task_apart}
use go_container_manager.System.Lifecycle.{shelf}
use go_container_manager.System.Guarded.{misfit, running_as, held, busy, IsGuarded}
use go_container_manager.System.Guarded.Counts.{
  count-waiting, count-held, count-busy, busy-le, pending_misfit-update, running_as-other,
  running_as-own,
}
use go_container_manager.System.Guarded.Requests.{shelf-containers}

active_as-matches :
    (id target : String) (rows : List Job)
    → count (active_as id target) rows ≤ count (matches id target) rows
unfolding count
active_as-matches id target [] = omega arith
active_as-matches id target (r ∷ rows) = ground (arith, active_as-matches id target rows)

module _ {S : Type 0} (rt : Runtime S) (service : Containers.Config) (config : Worker.Config)
    (pool_size : ℕ) (s : System S) (v : Inv pool_size s) (g : IsGuarded s) where
  module _ (before after : List Task) (t : Task) (e : s.workers ≡ before ++ t ∷ after) where
    -- The jobs on their way beside the one of this task.
    abbrev pub rest : List Job
    rest = on_way (before ++ after) s.queue s.senders

    pub apart :
        (id target : String)
        → count (matches id target) (played s) ≡ count (matches id target) (t.job ∷ rest)
    apart id target =
        (task_apart rt service config pool_size s v before after t t e refl refl id target).0

    -- None of the other marked jobs has its id.
    pub unmarked : (target : String) → count (matches t.job.id target) (busy (before ++ after)) ≡ 0
    unmarked target = omega (
      arith,
      no_other s.db.jobs (played s) rest t.job t.job apart refl v.sound target,
      busy-le (matches t.job.id target) (before ++ after),
      count-on_way (matches t.job.id target) (before ++ after) s.queue s.senders,
    )

  -- The task that is marked gets its running row, and the others keep theirs.
  marked_backed :
      (before after : List Task) (job : Job)
      → s.workers ≡ before ++ record { job = job; stage = received } ∷ after
      → (id target : String)
      → count
          (matches id target)
          (busy (before ++ record { job = marked job; stage = ready } ∷ after))
        ≤ count
            (running_as id target)
            (update_where (has_id job.id) (overwrite (marked job)) s.db.jobs)
  unfolding count
  marked_backed before after job e id target =
      let t : Task = record { job = job; stage = received } in
      let u : Task = record { job = marked job; stage = ready } in
      let split = count-busy (matches id target) before after u in
      elim (Bool-cases (job.id == id)) [
        | inl same ↦ ground (
          arith,
          split,
          eq_iff job.id id,
          eq_iff job.target_resource_id target,
          unmarked before after t e target,
          own_row s.db.jobs (played s) (rest before after t e) job job (apart before after t e) refl
              v.sound,
          active_as-matches job.id target s.db.jobs,
          running_as-own (marked job) target s.db.jobs refl,
        )
        | inr differ ↦ ground (
          arith,
          split,
          eq_iff job.id id,
          g.fit.backed id target,
          ap (λ ts. count (matches id target) (busy ts)) e,
          count-busy (matches id target) before after t,
          running_as-other (marked job) id target s.db.jobs,
        )
      ]

  pub mark-IsGuarded :
      (before after : List Task) (job : Job)
      → s.workers ≡ before ++ record { job = job; stage = received } ∷ after
      → IsGuarded (record s {
        db = store_job (marked job) s.db;
        workers = before ++ record { job = marked job; stage = ready } ∷ after;
      })
  unfolding count
  mark-IsGuarded before after job e =
      let f = shelf s.db in
      let t : Task = record { job = job; stage = received } in
      let u : Task = record { job = marked job; stage = ready } in
      let stored = store_job-IsWorking (marked job) s.db g.working in
      record {
        working = stored.0;
        fit =
            rw (shelf-containers s.db (store_job (marked job) s.db) stored.2, stored.1)
              (record {
                jobs_fit = ground (
                  arith,
                  g.fit.jobs_fit,
                  ap (λ ts. count (misfit f) (held ts)) e,
                  count-held (misfit f) before after t,
                  count-held (misfit f) before after u,
                  count-waiting (misfit f) (held s.workers) s.queue s.senders,
                  count-waiting (misfit f) (held (before ++ u ∷ after)) s.queue s.senders,
                );
                rows_fit =
                    omega
                      (arith, g.fit.rows_fit, pending_misfit-update (marked job) f s.db.jobs refl);
                backed = λ id target. marked_backed before after job e id target;
              });
      }
