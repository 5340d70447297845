-- ===== src/System/Composed.antt =====
-- The methods that a request and a worker call from beginning to end (Start, Stop and Delete of
-- internal/service/container_svc.go, process of worker.go), as runs of the server.
pub mod Journey
use go_container_manager.Prelude.{
  ℕ, suc, ◌≤◌, ◌<◌, String, Bool, true, false, ◌||◌, ◌≡◌, refl, List, [], ◌∷◌, ◌++◌, inl, inr,
  Bool-cases, length, leb, count, arith,
}
use go_container_manager.Exec.{Result, ok, err}
use go_container_manager.Domain.{Job}
use go_container_manager.Db.{Db}
use go_container_manager.Service.Containers
use go_container_manager.Service.Containers.{
  Inputs, Server, create_job, send_job, queue_capacity, start, stop, delete, create, enroll,
  store_container,
}
use go_container_manager.Service.Containers.Operations.{
  Operation, starts, stops, deletes, job_type, perform,
}
use go_container_manager.Repo.Jobs.{active_on}
use go_container_manager.Service.Containers.Faults.{IsIdle}
use go_container_manager.System.Changes.{store_container_lem}
use go_container_manager.Worker
use go_container_manager.Worker.{Runtime, Clock, Host, process, marked}
use go_container_manager.System.{
  System, Creation, Reach, request, send, give_up, receive, mark, work, settle, here, next, admit,
  requested, with_sender, with_enrolled, with_creation, submit, enlist, received, ready, worked,
  done_work,
}

-- What sendJob makes of the outcome of what came before it.
abbrev delivered : {A : Type 0} → (A → Job) → Bool → Result A → Db → List Job → Server
delivered job_of expired (ok a) db queue =
    (send_job expired (job_of a) (record { db = db; queue = queue })).1
delivered job_of expired (err _) db queue = record { db = db; queue = queue }

abbrev stored : Inputs → String → Result (Unit {0}) → Db → List Job → Server
stored x user_id (ok _) db queue =
    delivered (λ job. job) x.expired (enroll x user_id db).0 (enroll x user_id db).1 queue
stored x user_id (err _) db queue = record { db = db; queue = queue }

perform-delivered :
    (op : Operation) (cfg : Containers.Config) (x : Inputs) (user_id id : String) (db : Db)
    (queue : List Job)
    → cfg.tx_manager ≡ true
    → let job = create_job x user_id id (job_type op) in
      (perform op cfg x user_id id (record { db = db; queue = queue })).1
      ≡ delivered
          (λ _. job)
          x.expired
          (admit op user_id id job db).0
          (admit op user_id id job db).1
          queue
unfolding start stop delete admit send_job
perform-delivered starts cfg x user_id id db queue tx = ground arith
perform-delivered stops cfg x user_id id db queue tx = ground arith
perform-delivered deletes cfg x user_id id db queue tx = ground arith

create-stored :
    (cfg : Containers.Config) (x : Inputs) (user_id name env : String) (command : List String)
    (db : Db) (queue : List Job)
    → let (r, after) = store_container cfg x user_id name env command db in
      (create cfg x user_id name env command (record { db = db; queue = queue })).1
      ≡ stored x user_id r after queue
unfolding create send_job
create-stored cfg x user_id name env command db queue = ground arith

module _ {S : Type 0} (rt : Runtime S) (service : Containers.Config) (config : Worker.Config)
    (pool_size : ℕ) where
  abbrev pub Run : System S → System S → Type 0
  Run = Reach rt service config pool_size

  -- A new sender sends or gives up.
  sent :
      (s : System S) (db : Db) (expired : Bool) (job : Job)
      → Run s (record s { db = db; senders = job ∷ s.senders })
      → let h = (send_job expired job (record { db = db; queue = s.queue })).1 in
        Run s (record s { db = h.db; queue = h.queue })
  unfolding send_job
  sent s db expired job run = elim (Bool-cases (expired || leb queue_capacity (length s.queue))) [
    | inl e ↦ rw e (next run (give_up [] s.senders job refl))
    | inr e ↦ rw e (next run (send [] s.senders job refl (ground arith)))
  ]

  performed :
      (s : System S) (db : Db) (expired : Bool) (job : Job) (r : Result (Unit {0}))
      → Run s (record s { db = db; senders = with_sender r job s.senders })
      → let h = delivered (λ _. job) expired r db s.queue in
        Run s (record s { db = h.db; queue = h.queue })
  performed s db expired job (err _) run = run
  performed s db expired job (ok _) run = sent s db expired job run

  enlisted :
      (s : System S) (db : Db) (expired : Bool) (r : Result Job)
      → Run s (record s { db = db; senders = with_enrolled r s.senders })
      → let h = delivered (λ job. job) expired r db s.queue in
        Run s (record s { db = h.db; queue = h.queue })
  enlisted s db expired (err _) run = run
  enlisted s db expired (ok job) run = sent s db expired job run

  created :
      (x : Inputs) (user_id : String) (s : System S) (db : Db) (r : Result (Unit {0}))
      → count (active_on x.container_id) db.jobs ≡ 0
      → let c : Creation = record { inputs = x; user_id = user_id } in
        Run s (record s { db = db; creating = with_creation r c s.creating })
        → let h = stored x user_id r db s.queue in Run s (record s { db = h.db; queue = h.queue })
  created x user_id s db (err _) unused run = run
  created x user_id s db (ok _) unused run =
      enlisted s (enroll x user_id db).1 x.expired (enroll x user_id db).0
        (next run (enlist [] s.creating (record { inputs = x; user_id = user_id }) refl unused))

  -- With a TxManager, a whole call of Start, Stop or Delete, whichever statements fail, whatever
  -- the guard answers and whether or not the channel takes the job, takes the server from any
  -- state to one that it also reaches by its steps.
  pub performs :
      (op : Operation) (x : Inputs) (user_id id : String) (s : System S)
      → service.tx_manager ≡ true
      → let h = (perform op service x user_id id (record { db = s.db; queue = s.queue })).1 in
        Run s (record s { db = h.db; queue = h.queue })
  performs op x user_id id s tx =
      let job = create_job x user_id id (job_type op) in
      rw (perform-delivered op service x user_id id s.db s.queue tx) (
        performed s (admit op user_id id job s.db).1 x.expired job (admit op user_id id job s.db).0
          (next here (request op x user_id id)))

  -- Create as well, where nothing else happens between its two inserts.
  pub creates :
      (x : Inputs) (user_id name env : String) (command : List String) (s : System S)
      → IsIdle s.db
      → count (active_on x.container_id) s.db.jobs ≡ 0
      → let h =
          (create service x user_id name env command (record { db = s.db; queue = s.queue })).1 in
        Run s (record s { db = h.db; queue = h.queue })
  creates x user_id name env command s i unused =
      let (r, db) = store_container service x user_id name env command s.db in
      let lem = store_container_lem service x user_id name env command s.db i in
      rw (create-stored service x user_id name env command s.db s.queue) (
        created x user_id s db r (rw lem.1 unused)
          (next here (submit x user_id name env command unused)))

  -- A worker, alone, does what process does.
  pub processes :
      (clock : Clock) (job : Job) (rest : List Job) (s : System S)
      → s.queue ≡ job ∷ rest
      → length s.workers < pool_size
      → let h = process rt config clock job (record { db = s.db; outside = s.outside }) in
        Run s (record s { db = h.db; outside = h.outside; queue = rest })
  unfolding process
  processes clock job rest s e idle =
      next
        (next (next (next here (receive job rest e idle)) (mark [] s.workers job refl))
          (work [] s.workers (marked job) clock refl))
        (settle [] s.workers (marked job) _ clock.completed refl)
