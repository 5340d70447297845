-- ===== src/System/Sending.antt =====
-- Requests, the channel and its senders keep the invariant.
use go_container_manager.Prelude.{
  ℕ, ◌<◌, ap, String, true, ◌≡◌, refl, inl, inr, List, [], ◌∷◌, ◌++◌, arith, count, count-append,
  length, length-append,
}
use go_container_manager.Exec.{Result-cases}
use go_container_manager.Domain.{Job, is_active, create_container}
use go_container_manager.Db.{Db}
use go_container_manager.Repo.Jobs.{active_on}
use go_container_manager.Service.Containers
use go_container_manager.Service.Containers.{
  Inputs, create_job, queue_capacity, store_container, enroll,
}
use go_container_manager.Service.Containers.Faults.{IsIdle}
use go_container_manager.Worker
use go_container_manager.Worker.{Runtime, Clock, Host, run_job, marked, ended, store_job}
use go_container_manager.Service.Containers.Operations.{Operation, job_type}
use go_container_manager.System.{
  System, received, admit, on_way, played, requested, submitted, enrolled, Creation, with_creation,
}
use go_container_manager.System.Counting.{matches}
use go_container_manager.System.Changes.{
  IsAdded, admit_lem, admit-IsIdle, store_container_lem, enroll_lem,
}
use go_container_manager.System.Rows.{IsSound-fewer, IsSound-add}
use go_container_manager.System.Invariant.{Inv, count-on_way, count-middle, same_jobs}

module _ {S : Type 0} (rt : Runtime S) (service : Containers.Config) (config : Worker.Config)
    (pool_size : ℕ) (s : System S) (v : Inv pool_size s) where
  -- One more sender, whose job has just been stored.
  add_sender :
      (db : Db) (creating : List Creation) (job : Job)
      → IsIdle db
      → is_active job.status ≡ true
      → IsAdded s.db.jobs job db.jobs
      → count (active_on job.target_resource_id) s.db.jobs ≡ 0
      → Inv pool_size (record s { db = db; creating = creating; senders = job ∷ s.senders })
  unfolding count
  add_sender db creating job i a added idle = record {
    idle = i;
    sound = rw added.added (
        IsSound-fewer (job ∷ s.db.jobs) (job ∷ played s)
          (on_way s.workers s.queue (job ∷ s.senders))
          (IsSound-add s.db.jobs (played s) job v.sound a idle added.unused)
          (λ id target. ground (
            arith,
            count-on_way (matches id target) s.workers s.queue s.senders,
            count-on_way (matches id target) s.workers s.queue (job ∷ s.senders),
          )));
    queue_bound = v.queue_bound;
    pool_bound = v.pool_bound;
  }

  pub request-Inv :
      (op : Operation) (x : Inputs) (user_id id : String)
      → Inv pool_size (requested rt service config pool_size op x user_id id s)
  unfolding create_job
  request-Inv op x user_id id =
      let job = create_job x user_id id (job_type op) in
      let after = (admit op user_id id job s.db).1 in
      let i : IsIdle after = admit-IsIdle op user_id id job s.db v.idle in
      elim (admit_lem op user_id id job s.db v.idle) [
        | inl (r, added, idle) ↦ rw r (add_sender after s.creating job i refl added idle)
        | inr (r, same) ↦ elim (Result-cases (admit op user_id id job s.db).0) [
          | inl (a, e) ↦ absurd (ground arith)
          | inr (x, e) ↦ rw e (same_jobs pool_size s v after s.creating i same)
        ]
      ]

  pub submit-Inv :
      (x : Inputs) (user_id name env : String) (command : List String)
      → Inv pool_size (submitted rt service config pool_size x user_id name env command s)
  submit-Inv x user_id name env command =
      let lem = store_container_lem service x user_id name env command s.db v.idle in
      let (r, after) = store_container service x user_id name env command s.db in
      let creating = with_creation r (record { inputs = x; user_id = user_id }) s.creating in
      same_jobs pool_size s v after creating lem.0 lem.1

  pub enlist-Inv :
      (others : List Creation) (c : Creation)
      → count (active_on c.inputs.container_id) s.db.jobs ≡ 0
      → Inv pool_size (enrolled rt service config pool_size others c s)
  unfolding create_job
  enlist-Inv others c unused =
      let x = c.inputs in
      let job = create_job x c.user_id x.container_id create_container in
      let after = (enroll x c.user_id s.db).1 in
      let lem = enroll_lem x c.user_id s.db v.idle in
      elim lem.1 [
        | inl (r, added) ↦ rw r (add_sender after others job lem.0 refl added unused)
        | inr (r, same) ↦ elim (Result-cases (enroll x c.user_id s.db).0) [
          | inl (a, e) ↦ absurd (ground arith)
          | inr (x, e) ↦ rw e (same_jobs pool_size s v after others lem.0 same)
        ]
      ]

  pub send-Inv :
      (before after : List Job) (job : Job)
      → s.senders ≡ before ++ job ∷ after
      → length s.queue < queue_capacity
      → Inv pool_size (record s { senders = before ++ after; queue = s.queue ++ job ∷ [] })
  unfolding count
  send-Inv before after job e room = record {
    idle = v.idle;
    sound = IsSound-fewer s.db.jobs (played s) _ v.sound λ id target. ground (
      arith,
      count-on_way (matches id target) s.workers s.queue s.senders,
      count-on_way (matches id target) s.workers (s.queue ++ job ∷ []) (before ++ after),
      count-append (matches id target) s.queue (job ∷ []),
      count-middle (matches id target) before after job,
    );
    queue_bound = omega (arith, length-append s.queue (job ∷ []));
    pool_bound = v.pool_bound;
  }

  pub give_up-Inv :
      (before after : List Job) (job : Job)
      → s.senders ≡ before ++ job ∷ after
      → Inv pool_size (record s { senders = before ++ after })
  unfolding count
  give_up-Inv before after job e = record {
    idle = v.idle;
    sound = IsSound-fewer s.db.jobs (played s) _ v.sound λ id target. ground (
      arith,
      count-on_way (matches id target) s.workers s.queue s.senders,
      count-on_way (matches id target) s.workers s.queue (before ++ after),
      count-middle (matches id target) before after job,
    );
    queue_bound = v.queue_bound;
    pool_bound = v.pool_bound;
  }

  pub receive-Inv :
      (job : Job) (rest : List Job)
      → s.queue ≡ job ∷ rest
      → length s.workers < pool_size
      → Inv pool_size
          (record s { queue = rest; workers = record { job = job; stage = received } ∷ s.workers })
  unfolding count
  receive-Inv job rest e room = record {
    idle = v.idle;
    sound = IsSound-fewer s.db.jobs (played s) _ v.sound λ id target. ground (
      arith,
      count-on_way (matches id target) s.workers s.queue s.senders,
      count-on_way (matches id target) (record { job = job; stage = received } ∷ s.workers) rest
          s.senders,
    );
    queue_bound = omega (arith, v.queue_bound, ap length e);
    pool_bound = room;
  }
