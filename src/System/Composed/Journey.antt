-- ===== src/System/Composed/Journey.antt =====
-- A request for a container, and the work on its job, from the guard to the row that says how it ended.
use mathlib.Core.Path.{subst}
use go_container_manager.Prelude.{
  ℕ, ◌<◌, String, true, ◌≡◌, refl, List, [], ◌∷◌, length, arith, count, update_where, ap, ◌∙◌,
  eq_refl, none, ◌==◌,
}
use go_container_manager.Exec.{ok, is_ok}
use go_container_manager.Domain.{Job, JobStatus}
use go_container_manager.Db.{Db, Tables, healthy, statement}
use go_container_manager.Repo.Jobs
use go_container_manager.Service.Containers
use go_container_manager.Service.Containers.{Inputs, create_job}
use go_container_manager.Service.Containers.Operations.{Operation, job_type, perform}
use go_container_manager.Service.Containers.Requests.{perform-ok_iff, perform_effect}
use go_container_manager.Worker
use go_container_manager.Worker.{Runtime, Clock, Host, run_job, process, marked, ended, store_job}
use go_container_manager.Worker.Expected.{ended_row}
use go_container_manager.Worker.Outcome.{process_lem}
use go_container_manager.System.{System, Reach}
use go_container_manager.System.Runs.{joined}
use go_container_manager.System.Composed.{performs, processes}

-- Rows of other jobs.
others_stay :
    (f : Job → Job) (id : String) (rows : List Job)
    → count (λ j. j.id == id) rows ≡ 0
    → update_where (λ j. j.id == id) f rows ≡ rows
unfolding update_where count
others_stay f id [] e = refl
others_stay f id (r ∷ rows) e = ground (arith, others_stay f id rows)

top_row :
    (f : Job → Job) (job : Job) (rows : List Job)
    → count (λ j. j.id == job.id) rows ≡ 0
    → update_where (λ j. j.id == job.id) f (job ∷ rows) ≡ f job ∷ rows
unfolding update_where
top_row f job rows e = rw (eq_refl job.id, others_stay f job.id rows e) refl

-- The job that a request asks for.
abbrev pub asked_job : Operation → Inputs → String → String → Job
asked_job op x user_id id = record {
  id = x.job_id;
  user_id = user_id;
  target_resource_id = id;
  type = job_type op;
  status = JobStatus.pending;
  error_message = none;
  created_at = x.now;
  completed_at = none;
}

begun_lem :
    (job : Job) (t : Tables)
    → count (λ j. j.id == job.id) t.jobs ≡ 0
    → store_job (marked job) (healthy (record t { jobs = job ∷ t.jobs }))
      ≡ healthy (record t { jobs = record job { status = JobStatus.running } ∷ t.jobs })
unfolding store_job Jobs.update statement Jobs.overwrite
begun_lem job t e =
    ap (λ js. healthy (record t { jobs = js })) (top_row (Jobs.overwrite (marked job)) job t.jobs e)

module _ {S : Type 0} (rt : Runtime S) (service : Containers.Config) (config : Worker.Config)
    (pool_size : ℕ) (op : Operation) (x : Inputs) (user_id id : String) (clock : Clock) (t : Tables)
    (s : System S) where
  -- The end of the journey, where the work begins on this database.
  abbrev pub ArrivesFrom : Db → Type 0
  ArrivesFrom db =
      let running : Job = record (asked_job op x user_id id) { status = JobStatus.running } in
      let (r, done) =
        run_job rt config clock (job_type op) running (record { db = db; outside = s.outside }) in
      (u : System S) × Reach rt service config pool_size s u
      × (u.queue ≡ [])
      × (u.senders ≡ s.senders)
      × (u.workers ≡ s.workers)
      × (u.outside ≡ done.outside)
      × (u.db.containers ≡ done.db.containers)
      × (u.db.jobs ≡ ended_row clock.completed r none (asked_job op x user_id id) ∷ t.jobs)

  -- On a database in which no statement fails, with a TxManager, an empty channel and an idle
  -- worker: for a Start, Stop or Delete that succeeds, the server reaches a state in which the
  -- channel is empty again, the containers and the outside are as the work on the new job left
  -- them, and the job table is the old one with that job on top, with SUCCESS and no message if
  -- the work ended well, FAILED and the error's text if not, and the time of its completion.
  pub journey :
      service.tx_manager ≡ true
      → s.db ≡ healthy t
      → s.queue ≡ []
      → length s.workers < pool_size
      → is_ok (perform op service x user_id id (record { db = healthy t; queue = [] })).0 ≡ true
      → ArrivesFrom (
          healthy (record t {
            jobs = record (asked_job op x user_id id) { status = JobStatus.running } ∷ t.jobs;
          }))
  unfolding create_job
  journey tx healthy_db empty idle good =
      let job = create_job x user_id id (job_type op) in
      let after : Tables = record t { jobs = job ∷ t.jobs } in
      let effect : perform op service x user_id id (record { db = s.db; queue = s.queue })
          ≡ (ok job, record { db = healthy after; queue = job ∷ [] }) =
        rw (healthy_db, empty) (perform_effect op service x user_id id t [] good) in
      let admitted : System S = record s { db = healthy after; queue = job ∷ [] } in
      let first : Reach rt service config pool_size s admitted =
        subst (λ h. Reach rt service config pool_size s (record s { db = h.db; queue = h.queue }))
          (ap (λ p. p.1) effect) (performs rt service config pool_size op x user_id id s tx) in
      let h : Host S = record { db = healthy after; outside = s.outside } in
      let lem =
        process_lem rt config clock job h
          (record { no_faults = refl; no_tx = refl; not_aborted = refl }) in
      let fresh = ((perform-ok_iff op service x user_id id t []).0 good).0.fresh in
      let done = process rt config clock job h in
      let (r, _) =
        run_job rt config clock job.type (marked job)
          (record h { db = store_job (marked job) h.db }) in
      subst ArrivesFrom (begun_lem job t fresh) (
        record s { db = done.db; outside = done.outside; queue = [] },
        joined rt service config pool_size first
            (processes rt service config pool_size clock job [] admitted refl idle),
        refl,
        refl,
        refl,
        lem.0,
        lem.1,
        lem.2 ∙ top_row (ended_row clock.completed r none) job t.jobs fresh,
      )
