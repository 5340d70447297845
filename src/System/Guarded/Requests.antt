-- ===== src/System/Guarded/Requests.antt =====
-- Requests keep IsGuarded.
use mathlib.Core.Path.{subst}
use go_container_manager.Prelude.{
  ℕ, String, true, ◌≡◌, ◌≢◌, refl, sym, ap, inl, inr, List, ◌∷◌, arith, eq_iff, count, find,
}
use go_container_manager.Exec.{Result-cases}
use go_container_manager.Domain.{Job, is_pending, create_container}
use go_container_manager.Db.{Db, ContainerRow}
use go_container_manager.Repo.Containers as Rows
use go_container_manager.Repo.Jobs.{active_on}
use go_container_manager.Service.Containers
use go_container_manager.Service.Containers.{
  Inputs, create_job, enroll, store_container, queue_capacity,
}
use go_container_manager.Service.Containers.Operations.{Operation, job_type}
use go_container_manager.Repo.Containers.{to_row}
use go_container_manager.Service.Containers.{new_container}
use go_container_manager.Worker
use go_container_manager.Worker.{Runtime, Clock, run_job, marked, ended, store_job}
use go_container_manager.Worker.Kept.{IsWorking}
use go_container_manager.System.{
  System, Creation, with_creation, played, admit, requested, enrolled, submitted,
}
use go_container_manager.System.Changes.{admit_lem, enroll_lem, store_container_lem}
use go_container_manager.System.Invariant.{Inv}
use go_container_manager.System.Lifecycle
use go_container_manager.System.Lifecycle.{shelf, others-IsKeptAt}
use go_container_manager.System.Lifecycle.Refines.{
  admit-containers, enroll-containers, store_container_cases,
}
use go_container_manager.System.Guarded.{fits, misfit, held, busy, waiting, IsFit, IsGuarded}
use go_container_manager.System.Guarded.Counts.{
  count-waiting, waiting-le, for_target, pending_on-running_as, misfit-others,
  pending_misfit-others,
}
use go_container_manager.System.Guarded.Alone.{idle_unplayed}
use go_container_manager.System.Guarded.Calls.{
  admit-IsWorking, admit-fits, enroll-IsWorking, store_container-IsWorking,
}

-- The shelf is a view of the container table.
pub shelf-containers :
    (before after : Db) → after.containers ≡ before.containers → shelf after ≡ shelf before
unfolding shelf
shelf-containers before after e = ap (λ rows id. Lifecycle.status_if (find (Rows.has_id id) rows)) e

shelf-new :
    (before after : Db) (r : ContainerRow)
    → after.containers ≡ r ∷ before.containers
    → (other : String) → other ≢ r.id
    → shelf after other ≡ shelf before other
unfolding shelf find
shelf-new before after r e other ne = rw e (ground (arith, eq_iff r.id other))

module _ {S : Type 0} (rt : Runtime S) (service : Containers.Config) (config : Worker.Config)
    (pool_size : ℕ) (s : System S) (v : Inv pool_size s) (g : IsGuarded s) where
  -- A call that failed.
  pub unchanged :
      (db : Db) (creating : List Creation)
      → IsWorking db
      → db.containers ≡ s.db.containers
      → db.jobs ≡ s.db.jobs
      → IsGuarded (record s { db = db; creating = creating })
  unchanged db creating w same kept = record {
    working = w;
    fit = rw (shelf-containers s.db db same, kept) g.fit;
  }

  add_sender :
      (db : Db) (creating : List Creation) (job : Job)
      → IsWorking db
      → db.containers ≡ s.db.containers
      → db.jobs ≡ job ∷ s.db.jobs
      → fits job.type (shelf s.db job.target_resource_id) ≡ true
      → is_pending job.status ≡ true
      → IsGuarded (record s { db = db; creating = creating; senders = job ∷ s.senders })
  unfolding count
  add_sender db creating job w same added fit pending = record {
    working = w;
    fit =
        rw (shelf-containers s.db db same, added)
          (record {
            jobs_fit = ground (
              arith,
              g.fit.jobs_fit,
              count-waiting (misfit (shelf s.db)) (held s.workers) s.queue s.senders,
              count-waiting (misfit (shelf s.db)) (held s.workers) s.queue (job ∷ s.senders),
            );
            rows_fit = ground (arith, g.fit.rows_fit);
            backed = λ id target. ground (arith, g.fit.backed id target);
          });
  }

  pub request-IsGuarded :
      (op : Operation) (x : Inputs) (user_id id : String)
      → IsGuarded (requested rt service config pool_size op x user_id id s)
  unfolding create_job
  request-IsGuarded op x user_id id =
      let job = create_job x user_id id (job_type op) in
      let after = (admit op user_id id job s.db).1 in
      let w = admit-IsWorking op user_id id job s.db g.working in
      let same = admit-containers op user_id id job s.db v.idle in
      elim (admit_lem op user_id id job s.db v.idle) [
        | inl (r, added, idle) ↦ rw r (
            add_sender after s.creating job w same added.added
              (admit-fits op user_id id job s.db v.idle r) refl)
        | inr (r, kept) ↦ elim (Result-cases (admit op user_id id job s.db).0) [
          | inl (a, e) ↦ absurd (ground arith)
          | inr (x, e) ↦ rw e (unchanged after s.creating w same kept)
        ]
      ]

  pub enlist-IsGuarded :
      (others : List Creation) (c : Creation)
      → IsGuarded (enrolled rt service config pool_size others c s)
  unfolding create_job
  enlist-IsGuarded others c =
      let x = c.inputs in
      let job = create_job x c.user_id x.container_id create_container in
      let after = (enroll x c.user_id s.db).1 in
      let w = enroll-IsWorking x c.user_id s.db g.working in
      let same = enroll-containers x c.user_id s.db in
      elim (enroll_lem x c.user_id s.db v.idle).1 [
        | inl (r, added) ↦ rw r (add_sender after others job w same added.added refl refl)
        | inr (r, kept) ↦ elim (Result-cases (enroll x c.user_id s.db).0) [
          | inl (a, e) ↦ absurd (ground arith)
          | inr (x, e) ↦ rw e (unchanged after others w same kept)
        ]
      ]

  -- A container appears that no job on its way is for.
  appears :
      (db : Db) (creating : List Creation) (id : String)
      → IsWorking db
      → db.jobs ≡ s.db.jobs
      → count (active_on id) s.db.jobs ≡ 0
      → ((other : String) → other ≢ id → shelf db other ≡ shelf s.db other)
      → IsGuarded (record s { db = db; creating = creating })
  appears db creating id w kept idle others = record {
    working = w;
    fit =
        subst (λ rows. IsFit (shelf db) rows (waiting s) (busy s.workers)) (sym kept)
          (record {
            jobs_fit = omega (
              arith,
              g.fit.jobs_fit,
              misfit-others (shelf s.db) (shelf db) id others (waiting s) (
                  omega (
                    arith,
                    waiting-le (for_target id) s.workers s.queue s.senders,
                    idle_unplayed s.db.jobs id (played s) v.sound idle,
                  )),
            );
            rows_fit = omega (
              arith,
              g.fit.rows_fit,
              pending_misfit-others (shelf s.db) (shelf db) id others s.db.jobs
                  (omega (arith, idle, pending_on-running_as id id s.db.jobs)),
            );
            backed = g.fit.backed;
          });
  }

  pub submit-IsGuarded :
      (x : Inputs) (user_id name env : String) (command : List String)
      → count (active_on x.container_id) s.db.jobs ≡ 0
      → IsGuarded (submitted rt service config pool_size x user_id name env command s)
  submit-IsGuarded x user_id name env command unused =
      let (r, after) = store_container service x user_id name env command s.db in
      let creating = with_creation r (record { inputs = x; user_id = user_id }) s.creating in
      let w = store_container-IsWorking service x user_id name env command s.db g.working in
      let kept = (store_container_lem service x user_id name env command s.db v.idle).1 in
      elim (store_container_cases service x user_id name env command s.db) [
        | inl e ↦ unchanged after creating w e kept
        | inr (e, fresh) ↦
            unfold new_container to_row in
            appears after creating x.container_id w kept unused
              (shelf-new s.db after (to_row (new_container x user_id name env command)) e)
      ]
