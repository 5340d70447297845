-- ===== src/Tests/Stopping.antt =====
-- A process that is asked to stop: with a job in the channel, and with a worker that has it.
use go_container_manager.Prelude.{
  ℕ, ◌≡◌, true, none, refl, ◌∷◌, [], arith, find, count, update_where, sort_asc, select,
}
use go_container_manager.Db.{healthy, statement, with_tx}
use go_container_manager.Repo.Containers
use go_container_manager.Repo.Jobs
use go_container_manager.Service.Containers.{
  create_job, run_guarded, guard, start_guard, find_container_for_guard,
}
use go_container_manager.Service.Containers.Operations.{starts}
use go_container_manager.System.{received, request, send, receive, admit, requested, recovered}
use go_container_manager.App.{recover}
use go_container_manager.Process.{
  Process, Acts, running, idle, act, serve, signal, shut_down, worker_returns, workers_stopped,
  cleaner_returns, stopped, stopping_workers, finished, ended,
}
use go_container_manager.Process.Stopping.{stop_waits, stop_ends}
use go_container_manager.Worker.Kept.{IsWorking}
use go_container_manager.Tests.Data.{tables, service, inputs, docker, config}
use go_container_manager.Tests.Server.{start, start-Inv, waits}

abbrev Run : Process ℕ → Process ℕ → Type 0
Run = Acts docker service config 4

abbrev fresh : Process ℕ
fresh = running (recovered docker service config 4 start)

-- Alice starts her container, and the job goes into the channel.
abbrev asked : Process ℕ
asked = record fresh {
  system = record (requested docker service config 4 starts inputs "alice" "c1" fresh.system) {
    senders = [];
    queue = waits ∷ [];
  };
}

fresh-asked : Run fresh asked
unfolding admit start_guard run_guarded guard with_tx statement find count find_container_for_guard
    Containers.find_by_id_for_update Jobs.find_pending_or_running_by_target Jobs.save create_job
    recover Jobs.find_pending_jobs Jobs.mark_running_as_failed update_where sort_asc select
fresh-asked =
    act (act idle refl (serve _ (request starts inputs "alice" "c1") refl)) refl
      (serve _ (send [] [] waits refl (omega arith)) (record {}))

is_working : IsWorking (healthy tables)
is_working = record { no_faults = refl; no_tx = refl; not_aborted = refl }

-- The job stays in the channel.
abbrev halted : Process ℕ
halted = record asked { handler = finished; quit = true; returned = 4; cleaner = ended }

stop_waits_example :
    (halted.system.senders ≡ [])
    × (halted.system.creating ≡ [])
    × (halted.system.workers ≡ [])
    × (halted.cleaner ≡ ended)
    × ((recover halted.system.db).0.jobs ≡ halted.system.db.jobs)
stop_waits_example =
    let closing = act (act fresh-asked refl (signal refl)) refl (shut_down refl refl refl) in
    let some_back =
      act (act closing refl (worker_returns refl (omega arith))) refl
        (worker_returns refl (omega arith)) in
    let all_back =
      act (act some_back refl (worker_returns refl (omega arith))) refl
        (worker_returns refl (omega arith)) in
    stop_waits docker service config 4 (healthy tables) 0 halted start-Inv is_working
      (act (act (act all_back refl (workers_stopped refl refl)) refl (cleaner_returns refl)) refl
        (stopped refl refl))
      refl

-- A worker has received it.
abbrev busy : Process ℕ
busy = record asked {
  system = record asked.system {
    queue = [];
    workers = record { job = waits; stage = received } ∷ [];
  };
  handler = stopping_workers;
  quit = true;
}

stop_ends_example :
    (q : Process ℕ) × Run busy q
    × (q.handler ≡ finished)
    × (q.exit ≡ none)
    × (q.system.queue ≡ busy.system.queue)
stop_ends_example =
    stop_ends docker service config 4 (healthy tables) 0 busy start-Inv is_working
      (act
        (act (act fresh-asked refl (serve _ (receive waits [] refl (omega arith)) (omega arith)))
          refl (signal refl))
        refl (shut_down refl refl refl))
      refl refl
