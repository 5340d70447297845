-- ===== src/System/Progress.antt =====
-- Runs in which the server goes on with the jobs that it has while no statement fails.
pub mod Drain
use go_container_manager.Prelude.{
  ℕ, suc, ◌+◌, ◌≤◌, ◌<◌, String, Bool, true, false, ◌&&◌, ◌≡◌, refl, sym, ap, ◌∙◌, List, [], ◌∷◌,
  ◌++◌, ◌==◌, eq_iff, eq_refl, arith, count, count-append, map, length, update_where, if◌then◌else◌,
}
use go_container_manager.Exec.{Result, ok, err}
use go_container_manager.Domain.{Job, is_active}
use go_container_manager.Db.{Db}
use go_container_manager.Repo.Jobs.{has_id, overwrite}
use go_container_manager.Repo.Containers.Laws.{HasJobs}
use go_container_manager.Service.Containers
use go_container_manager.Worker
use go_container_manager.Worker.{Runtime, Clock, run_job, marked, ended, store_job}
use go_container_manager.Worker.Process.{run_job-keeps}
use go_container_manager.Worker.Kept.{HasJobs-IsKept, IsWorking, IsWorking-IsKept}
use go_container_manager.Worker.Outcome.{store_job-IsWorking}
use go_container_manager.System.{
  Stage, Task, System, Step, Reach, played, on_way, done_work, received, ready, worked, send,
  receive, mark, work, settle, here, next,
}
use go_container_manager.System.Runs.{
  Run, StepClass, IsOwn, IsInner, Only, Only-joined, Only-wider, own-IsInner, joined,
}
use go_container_manager.System.Counting.{matches, active_as, stale, stale-active_as}
use go_container_manager.System.Invariant.{Inv, count-on_way}
use go_container_manager.System.Exclusion.{Step-Inv}

-- The active rows with an id.
abbrev pub active_id : String → Job → Bool
active_id id j = j.id == id && is_active j.status

module _ (k : Job) where
  active_id-mark :
      (id : String) (rows : List Job)
      → count (active_id id) (update_where (has_id k.id) (overwrite k) rows)
        ≤ count (active_id id) rows + count (stale k.id) rows
  unfolding count update_where overwrite
  active_id-mark id [] = omega arith
  active_id-mark id (r ∷ rows) = ground (arith, active_id-mark id rows)

  active_id-end :
      (id : String) (rows : List Job)
      → is_active k.status ≡ false
      → count (active_id id) (update_where (has_id k.id) (overwrite k) rows)
        ≡ (if k.id == id then 0 else count (active_id id) rows)
  unfolding count update_where overwrite
  active_id-end id [] h = ground arith
  active_id-end id (r ∷ rows) h =
      ground (arith, active_id-end id rows h, eq_iff r.id id, eq_iff r.id k.id, eq_iff k.id id)

pub ended-is_active :
    (now : ℕ) (r : Result (Unit {0})) (job : Job) → is_active (ended now r job).status ≡ false
ended-is_active now (ok _) job = refl
ended-is_active now (err _) job = refl

module _ {S : Type 0} (rt : Runtime S) (service : Containers.Config) (config : Worker.Config)
    (pool_size : ℕ) where
  abbrev Class : Type 1
  Class = StepClass rt service config pool_size

  abbrev Own : Class
  Own = IsOwn rt service config pool_size

  -- A run of such steps in which no statement fails and no row becomes active.
  pub record Progress (P : Class) (s u : System S) : Type 0 where
    pub run : Run rt service config pool_size s u
    pub only : Only rt service config pool_size P run
    pub working : IsWorking u.db
    pub inv : Inv pool_size u
    pub fewer : (id : String) → count (active_id id) u.db.jobs ≤ count (active_id id) s.db.jobs

  module _ {P : Class} where
    pub still : {s : System S} → Inv pool_size s → IsWorking s.db → Progress P s s
    unfolding Only
    still v w = record {
      run = here;
      only = record {};
      working = w;
      inv = v;
      fewer = λ id. omega arith;
    }

    pub further : {s t u : System S} → Progress P s t → Progress P t u → Progress P s u
    further p q = record {
      run = joined rt service config pool_size p.run q.run;
      only = Only-joined rt service config pool_size P p.run q.run p.only q.only;
      working = q.working;
      inv = q.inv;
      fewer = λ id. omega (arith, p.fewer id, q.fewer id);
    }

    pub step :
        {s u : System S} (st : Step rt service config pool_size s u)
        → P s u st
        → Inv pool_size s
        → IsWorking u.db
        → ((id : String) → count (active_id id) u.db.jobs ≤ count (active_id id) s.db.jobs)
        → Progress P s u
    unfolding Only
    step st a v w f = record {
      run = next here st;
      only = (record {}, a);
      working = w;
      inv = Step-Inv rt service config pool_size st v;
      fewer = f;
    }

  pub widened :
      {s t : System S} → Progress Own s t → Progress (IsInner rt service config pool_size) s t
  widened p = record {
    run = p.run;
    only =
        Only-wider rt service config pool_size Own (IsInner rt service config pool_size)
          (own-IsInner rt service config pool_size) p.run p.only;
    working = p.working;
    inv = p.inv;
    fewer = p.fewer;
  }

  -- The first task goes on to its end.
  abbrev pub Finishes : System S → Task → List Task → Type 0
  Finishes s t rest =
      (u : System S) × Progress Own s u
      × (u.workers ≡ rest)
      × (u.queue ≡ s.queue)
      × (u.senders ≡ s.senders)
      × (count (active_id t.job.id) u.db.jobs ≡ 0)

  finish_worked :
      (s : System S) (job : Job) (r : Result (Unit {0})) (rest : List Task)
      → Inv pool_size s
      → IsWorking s.db
      → s.workers ≡ record { job = job; stage = worked r } ∷ rest
      → Finishes s (record { job = job; stage = worked r }) rest
  finish_worked s job r rest v w e =
      let k = ended 0 r job in
      let lem = store_job-IsWorking k s.db w in
      let end : (id : String) → _ = λ id. active_id-end k id s.db.jobs (ended-is_active 0 r job) in
      (
        record s { db = store_job k s.db; workers = rest },
        step (settle [] rest job r 0 e) (record {}) v lem.0
            (λ id. rw lem.1 (ground (arith, end id))),
        refl,
        refl,
        refl,
        rw lem.1 (ground (arith, end job.id, eq_refl job.id)),
      )

  finish_ready :
      (s : System S) (job : Job) (rest : List Task)
      → Inv pool_size s
      → IsWorking s.db
      → s.workers ≡ record { job = job; stage = ready } ∷ rest
      → Finishes s (record { job = job; stage = ready }) rest
  finish_ready s job rest v w e =
      let clock : Clock = record { updated = 0; completed = 0 } in
      let (r, h) = done_work rt service config pool_size clock job s in
      let kept : HasJobs s.db.jobs h.db =
        run_job-keeps rt config clock job (HasJobs s.db.jobs) (HasJobs-IsKept s.db.jobs) job.type
          (record { db = s.db; outside = s.outside })
          (record { held = refl; no_tx = w.no_tx; not_aborted = w.not_aborted }) in
      let working : IsWorking h.db =
        run_job-keeps rt config clock job IsWorking IsWorking-IsKept job.type
          (record { db = s.db; outside = s.outside }) w in
      let t : System S = record s {
        db = h.db;
        outside = h.outside;
        workers = record { job = job; stage = worked r } ∷ rest;
      } in
      let p : Progress Own s t =
        step (work [] rest job clock e) (record {}) v working (λ id. rw kept.held (omega arith)) in
      let (u, q, a, b, c, d) = finish_worked t job r rest p.inv working refl in
      (u, further p q, a, b, c, d)

  finish_received :
      (s : System S) (job : Job) (rest : List Task)
      → Inv pool_size s
      → IsWorking s.db
      → s.workers ≡ record { job = job; stage = received } ∷ rest
      → Finishes s (record { job = job; stage = received }) rest
  unfolding count
  finish_received s job rest v w e =
      let lem = store_job-IsWorking (marked job) s.db w in
      let t : System S = record s {
        db = store_job (marked job) s.db;
        workers = record { job = marked job; stage = ready } ∷ rest;
      } in
      let own : 1 ≤ count (active_as job.id job.target_resource_id) s.db.jobs = ground (
        arith,
        v.sound.backed job.id job.target_resource_id,
        count-on_way (matches job.id job.target_resource_id) s.workers s.queue s.senders,
        eq_refl job.id,
        eq_refl job.target_resource_id,
      ) in
      let p : Progress Own s t = step (mark [] rest job e) (record {}) v lem.0 (λ id. rw lem.1 (
        omega (
          arith,
          active_id-mark (marked job) id s.db.jobs,
          stale-active_as job.id job.target_resource_id s.db.jobs,
          v.sound.one_row job.id,
          own,
        ))) in
      let (u, q, a, b, c, d) = finish_ready t (marked job) rest p.inv lem.0 refl in
      (u, further p q, a, b, c, d)

  finish_at :
      (stage : Stage) (s : System S) (job : Job) (rest : List Task)
      → Inv pool_size s
      → IsWorking s.db
      → s.workers ≡ record { job = job; stage = stage } ∷ rest
      → Finishes s (record { job = job; stage = stage }) rest
  finish_at received s job rest v w e = finish_received s job rest v w e
  finish_at ready s job rest v w e = finish_ready s job rest v w e
  finish_at (worked r) s job rest v w e = finish_worked s job r rest v w e

  pub finish :
      (s : System S) (t : Task) (rest : List Task)
      → Inv pool_size s
      → IsWorking s.db
      → s.workers ≡ t ∷ rest
      → Finishes s t rest
  finish s t rest v w e = finish_at t.stage s t.job rest v w e
