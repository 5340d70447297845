-- ===== src/Process/Stopping.antt =====
-- The goroutine of main that stops the server, from the signal to the return of App.Stop.
use go_container_manager.Prelude.{ℕ, ◌-◌, zero, suc, none, ◌+◌, true, ◌≡◌, refl, [], arith}
use go_container_manager.Db.{Db}
use go_container_manager.Service.Containers
use go_container_manager.Worker
use go_container_manager.Worker.{Runtime}
use go_container_manager.Worker.Kept.{IsWorking}
use go_container_manager.App.{recover}
use go_container_manager.System.{
  System, Step, Reach, here, next, recovered, request, submit, enlist, send, give_up, receive, mark,
  work, settle, tick, restart,
}
use go_container_manager.System.Invariant.{Inv}
use go_container_manager.System.Runs.{IsOwn, Only}
use go_container_manager.System.Progress.Drain.{drain_workers}
use go_container_manager.System.Working.{restart-Inv}
use go_container_manager.System.Exclusion.{booting, Reach-Inv}
use go_container_manager.System.Attended.Kept.{restarted}
use go_container_manager.System.Attended.{IsAttended}
use go_container_manager.System.Attended.Stopped.{Reach-IsAttended, at_rest}
use go_container_manager.Process.{
  Process, Acts, IsServed, running, idle, act, serve, worker_returns, workers_stopped,
  cleaner_returns, stopped, stopping_workers, finished, ended,
}
use go_container_manager.Process.Orderly.{IsOrderly, Acts-IsOrderly, running-IsOrderly, no_elements}

module _ {S : Type 0} (rt : Runtime S) (service : Containers.Config) (config : Worker.Config)
    (pool_size : ℕ) where
  abbrev Run : Process S → Process S → Type 0
  Run = Acts rt service config pool_size

  own-IsServed :
      (p : Process S) (t : System S) (st : Step rt service config pool_size p.system t)
      → IsOwn rt service config pool_size p.system t st
      → IsServed rt service config pool_size p st
  own-IsServed p t (mark _ _ _ _) a = a
  own-IsServed p t (work _ _ _ _ _) a = a
  own-IsServed p t (settle _ _ _ _ _ _) a = a
  own-IsServed p t (request _ _ _ _) a = absurd a
  own-IsServed p t (submit _ _ _ _ _ _) a = absurd a
  own-IsServed p t (enlist _ _ _ _ _) a = absurd a
  own-IsServed p t (send _ _ _ _ _) a = absurd a
  own-IsServed p t (give_up _ _ _ _) a = absurd a
  own-IsServed p t (receive _ _ _ _) a = absurd a
  own-IsServed p t (tick _) a = absurd a
  own-IsServed p t restart a = absurd a

  -- The workers go on,
  worked_on :
      (p : Process S)
      → p.exit ≡ none
      → {s t : System S} (run : Reach rt service config pool_size s t)
      → Only rt service config pool_size (IsOwn rt service config pool_size) run
      → Run (record p { system = s }) (record p { system = t })
  unfolding Only
  worked_on p alive here a = idle
  worked_on p alive (next {t} {u} run st) a =
      act (worked_on p alive run a.0) alive
        (serve u st (own-IsServed (record p { system = t }) u st a.1))

  -- and return.
  returning :
      (p q : Process S)
      → Run p q
      → q.exit ≡ none
      → q.quit ≡ true
      → q.system.workers ≡ []
      → (n : ℕ) → n + q.returned ≡ pool_size
      → (k : ℕ) × Run p (record q { returned = k }) × (k ≡ pool_size)
  returning p q run alive told none_left zero h = (q.returned, run, omega (arith, h))
  returning p q run alive told none_left (suc n) h =
      let one = act run alive (worker_returns told (rw none_left (omega (arith, h)))) in
      returning p (record q { returned = suc q.returned }) one alive told none_left n
        (omega (arith, h))

  abbrev start : Db → S → System S
  start db outside = recovered rt service config pool_size (booting db outside)

  started :
      (db : Db) (outside : S) (p : Process S)
      → Run (running (start db outside)) p
      → IsOrderly rt service config pool_size (start db outside) p
  started db outside p run =
      Acts-IsOrderly rt service config pool_size run
        (running-IsOrderly rt service config pool_size (start db outside) refl)

  module _ (db : Db) (outside : S) (p : Process S) (v : Inv pool_size (booting db outside))
      (w : IsWorking db) (run : Run (running (start db outside)) p) where
    attended : IsAttended p.system
    attended =
        Reach-IsAttended rt service config pool_size (started db outside p run).run
          (restart-Inv rt service config pool_size (booting db outside) v)
          (restarted rt service config pool_size (booting db outside) w)

    -- From a start of the server on a database that satisfies the invariant and in which no
    -- statement fails: when the shutdown has come to its end, however requests, workers, cleaner
    -- and the signal were interleaved, where no job of a new container is active yet when its
    -- Create stores its job, every request has been answered, no worker has a job at hand, the
    -- cleaner has returned, and the recovery of the next start leaves the job table as it is.
    pub stop_waits :
        p.handler ≡ finished
        → (p.system.senders ≡ [])
          × (p.system.creating ≡ [])
          × (p.system.workers ≡ [])
          × (p.cleaner ≡ ended)
          × ((recover p.system.db).0.jobs ≡ p.system.db.jobs)
    stop_waits e =
        let o = started db outside p run in
        let none_left : p.system.workers ≡ [] =
          no_elements p.system.workers (omega (arith, o.pool, o.waited (rw e refl))) in
        let (senders, creating) = o.answered (rw e refl) in
        (
          senders,
          creating,
          none_left,
          o.done (rw e refl),
          at_rest rt service config pool_size p.system attended none_left,
        )

    -- From a start of the server on a database that satisfies the invariant and in which no
    -- statement fails: wherever the process is in Worker.Stop and has not exited, where no job of
    -- a new container is active yet when its Create stores its job, it can go on to the end of the
    -- shutdown without an exit, and with the jobs of the channel left where they are.
    pub stop_ends :
        p.handler ≡ stopping_workers
        → p.exit ≡ none
        → (q : Process S) × Run p q
          × (q.handler ≡ finished)
          × (q.exit ≡ none)
          × (q.system.queue ≡ p.system.queue)
    stop_ends e alive =
        let o = started db outside p run in
        let inv =
          Reach-Inv rt service config pool_size o.run
            (restart-Inv rt service config pool_size (booting db outside) v) in
        let (u, goes, quiet, queue, _, _) =
          drain_workers rt service config pool_size p.system.workers p.system inv attended.working
            refl in
        let first : Process S = record p { system = u } in
        let (k, all, enough) =
          returning p first (worked_on p alive goes.run goes.only) alive (o.told (rw e refl)) quiet
            (pool_size - p.returned) (omega (arith, o.pool)) in
        let waited = act all alive (workers_stopped e enough) in
        let last = act (act waited alive (cleaner_returns refl)) alive (stopped refl refl) in
        (_, last, refl, alive, queue)
