-- ===== src/Process.antt =====
-- cmd/server/main.go: the process around the server. Beside main run the goroutine that waits for a signal
-- and shuts down, the workers with their `quit` channel, and the cleaner; Stop of app/handler.go,
-- internal/service/worker.go and internal/service/job_cleaner.go are steps of it.
pub mod Orderly
pub mod Stopping
use Prim.Native.String.{◌++◌}
use go_container_manager.Prelude.{
  ℕ, suc, ◌+◌, ◌<◌, String, Bool, true, false, ◌≡◌, ◌≢◌, Option, none, some, List, [], ◌∷◌, length,
}
use go_container_manager.Service.Containers
use go_container_manager.Worker
use go_container_manager.Worker.{Runtime}
use go_container_manager.System.{
  System, Step, request, submit, enlist, send, give_up, receive, mark, work, settle, tick, restart,
}
use go_container_manager.Startup.{App, Boot, exits, serves, or_default}

-- http.Server.Addr
abbrev pub address : (String → String) → String
address getenv = ":" ++ or_default "8080" (getenv "SERVER_PORT")

-- Where the goroutine stands that waits for SIGINT or SIGTERM: before `<-sigCh`, in Shutdown, in
-- Worker.Stop, in JobCleaner.Stop, and at its end.
pub data Handler : Type 0 where
  waiting shutting_down stopping_workers stopping_cleaner finished : Handler

-- Shutdown waits for the requests that have begun, so they go on until it returns.
abbrev pub has_requests : Handler → Bool
has_requests waiting = true
has_requests shutting_down = true
has_requests stopping_workers = false
has_requests stopping_cleaner = false
has_requests finished = false

-- The loop of JobCleaner.run: it ticks, it has been asked to quit, or it has returned.
pub data Cleaner : Type 0 where
  ticks asked ended : Cleaner

pub record Process (S : Type 0) : Type 0 where
  pub system : System S
  pub handler : Handler
  pub quit : Bool  -- Worker.quit is closed
  pub returned : ℕ  -- the workers whose loop has returned
  pub cleaner : Cleaner
  pub exit : Option ℕ

-- The process after NewHandler.
abbrev pub running : {S : Type 0} → System S → Process S
running s = record {
  system = s;
  handler = waiting;
  quit = false;
  returned = 0;
  cleaner = ticks;
  exit = none;
}

-- How ListenAndServe returns.
pub data Served : Type 0 where
  server_closed : Served
  failed : Served

-- Its error is fatal unless it is ErrServerClosed; main returns after it.
abbrev pub exit_code : Served → ℕ
exit_code server_closed = 0
exit_code failed = 1

module _ {S : Type 0} (rt : Runtime S) (service : Containers.Config) (config : Worker.Config)
    (pool_size : ℕ) where
  -- The steps of the server that the process may take: what a request does before its end, a job
  -- for a worker that has not returned, a tick of a cleaner that has not.
  abbrev pub IsServed : {s t : System S} → Process S → Step rt service config pool_size s t → Type 0
  IsServed p (request _ _ _ _) = has_requests p.handler ≡ true
  IsServed p (submit _ _ _ _ _ _) = has_requests p.handler ≡ true
  IsServed p (enlist _ _ _ _ _) = Unit {0}
  IsServed p (send _ _ _ _ _) = Unit {0}
  IsServed p (give_up _ _ _ _) = Unit {0}
  IsServed p (receive _ _ _ _) = length p.system.workers + p.returned < pool_size
  IsServed p (mark _ _ _ _) = Unit {0}
  IsServed p (work _ _ _ _ _) = Unit {0}
  IsServed p (settle _ _ _ _ _ _) = Unit {0}
  IsServed p (tick _) = p.cleaner ≢ ended
  IsServed p restart = ⊥

  pub data Act (p : Process S) : Process S → Type 0 where
    serve :
        (t : System S) (st : Step rt service config pool_size p.system t)
        → IsServed p st
        → Act p (record p { system = t })
    -- A signal: Shutdown closes the listener.
    signal : p.handler ≡ waiting → Act p (record p { handler = shutting_down })
    -- Shutdown returns when no request is left, and then App.Stop begins: `close(w.quit)`.
    shut_down :
        p.handler ≡ shutting_down
        → p.system.senders ≡ []
        → p.system.creating ≡ []
        → Act p (record p { handler = stopping_workers; quit = true })
    -- Its context of 10 seconds ends before.
    time_out : p.handler ≡ shutting_down → Act p (record p { exit = some 1 })
    -- A worker without a job reads from `quit`.
    worker_returns :
        p.quit ≡ true
        → length p.system.workers + p.returned < pool_size
        → Act p (record p { returned = suc p.returned })
    -- `w.wg.Wait()` is over, and JobCleaner.Stop closes its `quit`.
    workers_stopped :
        p.handler ≡ stopping_workers
        → p.returned ≡ pool_size
        → Act p (record p { handler = stopping_cleaner; cleaner = asked })
    -- The cleaner reads from it and closes `done`,
    cleaner_returns : p.cleaner ≡ asked → Act p (record p { cleaner = ended })
    -- for which Stop waits.
    stopped :
        p.handler ≡ stopping_cleaner → p.cleaner ≡ ended → Act p (record p { handler = finished })
    -- ListenAndServe returns ErrServerClosed once Shutdown has begun, and another error at any time.
    closed : p.handler ≢ waiting → Act p (record p { exit = some (exit_code server_closed) })
    listen_fails : Act p (record p { exit = some (exit_code failed) })

  -- Nothing happens after the exit.
  pub data Acts (p : Process S) : Process S → Type 0 where
    idle : Acts p p
    act : {q r : Process S} → Acts p q → q.exit ≡ none → Act q r → Acts p r

-- main: NewHandler, then the process.
abbrev pub boot : {S : Type 0} → Boot S → System S → Process S
boot (exits code) s = record (running s) { exit = some code }
boot (serves app) _ = running app.system
