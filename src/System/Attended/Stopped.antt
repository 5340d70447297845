-- ===== src/System/Attended/Stopped.antt =====
-- Worker.Stop of internal/service/worker.go, and the start after it.
use go_container_manager.Prelude.{ℕ, ◌≡◌, refl, ap, [], arith, count}
use go_container_manager.Db.{Db}
use go_container_manager.Service.Containers
use go_container_manager.Worker
use go_container_manager.Worker.{Runtime}
use go_container_manager.Worker.Kept.{IsWorking}
use go_container_manager.App.{recover}
use go_container_manager.System.{System, Reach, here, next, recovered}
use go_container_manager.System.Counting.{matches}
use go_container_manager.System.Invariant.{Inv}
use go_container_manager.System.Working.{restart-Inv}
use go_container_manager.System.Exclusion.{Reach-Inv, booting}
use go_container_manager.System.Runs.{joined}
use go_container_manager.System.Progress.Drain.{drain_workers}
use go_container_manager.System.Guarded.{busy}
use go_container_manager.System.Attended.{IsAttended}
use go_container_manager.System.Attended.Rows.{recover-idle}
use go_container_manager.System.Attended.Kept.{restarted, Step-IsAttended}

module _ {S : Type 0} (rt : Runtime S) (service : Containers.Config) (config : Worker.Config)
    (pool_size : ℕ) where
  pub Reach-IsAttended :
      {s t : System S}
      → Reach rt service config pool_size s t
      → Inv pool_size s
      → IsAttended s
      → IsAttended t
  Reach-IsAttended here v a = a
  Reach-IsAttended (next r st) v a =
      Step-IsAttended rt service config pool_size _ (Reach-Inv rt service config pool_size r v)
        (Reach-IsAttended r v a) st

  -- Where no worker has a task, no row is running.
  pub at_rest : (s : System S) → IsAttended s → s.workers ≡ [] → (recover s.db).0.jobs ≡ s.db.jobs
  unfolding count busy
  at_rest s a e = recover-idle s.db a.working λ id target.
      omega (arith, a.attended id target, ap (λ ts. count (matches id target) (busy ts)) e)

  -- From a start of the server on a database that satisfies the invariant and in which no
  -- statement fails: whatever it has reached, its workers can end the jobs that they have begun
  -- and come to rest, without touching the channel or the waiting senders, as Stop waits for; and
  -- then the next start finds no running job, so that its recovery interrupts none and leaves the
  -- job table as it is.
  stops_gracefully :
      (db : Db) (outside : S) (t : System S)
      → Inv pool_size (booting db outside)
      → IsWorking db
      → Reach rt service config pool_size
          (recovered rt service config pool_size (booting db outside))
          t
      → (u : System S) × Reach rt service config pool_size t u
        × (u.workers ≡ [])
        × (u.queue ≡ t.queue)
        × (u.senders ≡ t.senders)
        × ((recover u.db).0.jobs ≡ u.db.jobs)
  stops_gracefully db outside t v w r =
      let start = restart-Inv rt service config pool_size (booting db outside) v in
      let a = restarted rt service config pool_size (booting db outside) w in
      let b = Reach-IsAttended r start a in
      let (u, p, quiet, queue, senders, _) =
        drain_workers rt service config pool_size t.workers t
          (Reach-Inv rt service config pool_size r start) b.working refl in
      (
        u,
        p.run,
        quiet,
        queue,
        senders,
        at_rest u (Reach-IsAttended (joined rt service config pool_size r p.run) start a) quiet,
      )
