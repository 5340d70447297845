-- ===== src/System/Statements.antt =====
-- The running server with the statements of its guarded transactions as steps of their own: requests of
-- all users are in the middle of runGuarded at the same time. FOR UPDATE locks a container's row until its
-- transaction ends, and whoever writes that row waits so long.
pub mod Locked
pub mod Kept
pub mod Others
pub mod Working
pub mod Atomic
use go_container_manager.Prelude.{
  ℕ, String, Bool, true, false, ◌&&◌, ◌≡◌, List, [], ◌∷◌, ◌++◌, ◌==◌, count,
}
use go_container_manager.Exec.{ok, is_ok}
use go_container_manager.Domain.{Container, Job}
use go_container_manager.Repo.Containers as Rows
use go_container_manager.Repo.Jobs
use go_container_manager.Service.Containers
use go_container_manager.Service.Containers.{Inputs, create_job}
use go_container_manager.Service.Containers.Operations.{Operation, job_type, refuses}
use go_container_manager.Worker
use go_container_manager.Worker.{Runtime}
use go_container_manager.System.{
  System, Step, request, submit, enlist, send, give_up, receive, mark, work, settle, tick, restart,
  recovered,
}

-- Where a transaction stands in its guard: before FindByIDForUpdate, before
-- FindPendingOrRunningByTarget, and before Save.
pub data Stage : Type 0 where
  begun : Stage
  locked cleared : Container → Stage

pub record Transaction : Type 0 where
  pub op : Operation
  pub inputs : Inputs
  pub user_id : String
  pub container_id : String
  pub stage : Stage

-- The job that createJob made for it.
abbrev pub job_of : Transaction → Job
job_of x = create_job x.inputs x.user_id x.container_id (job_type x.op)

abbrev pub has_lock : Stage → Bool
has_lock begun = false
has_lock (locked _) = true
has_lock (cleared _) = true

-- It holds the lock of this container's row.
abbrev pub locks : String → Transaction → Bool
locks id x = has_lock x.stage && x.container_id == id

pub record Server (S : Type 0) : Type 0 where
  pub system : System S
  pub open_txs : List Transaction

module _ {S : Type 0} (rt : Runtime S) (service : Containers.Config) (config : Worker.Config)
    (pool_size : ℕ) where
  -- The other steps of the server, beside these transactions: the work on a job writes its container's
  -- row, and Create stores a job for its container, while no transaction has that row locked.
  abbrev pub IsAllowed :
      {s t : System S} → List Transaction → Step rt service config pool_size s t → Type 0
  IsAllowed txs (request _ _ _ _) = ⊥
  IsAllowed txs (submit _ _ _ _ _ _) = Unit {0}
  IsAllowed txs (enlist _ _ c _ _) = count (locks c.inputs.container_id) txs ≡ 0
  IsAllowed txs (send _ _ _ _ _) = Unit {0}
  IsAllowed txs (give_up _ _ _ _) = Unit {0}
  IsAllowed txs (receive _ _ _ _) = Unit {0}
  IsAllowed txs (mark _ _ _ _) = Unit {0}
  IsAllowed txs (work _ _ job _ _) = count (locks job.target_resource_id) txs ≡ 0
  IsAllowed txs (settle _ _ _ _ _ _) = Unit {0}
  IsAllowed txs (tick _) = Unit {0}
  IsAllowed txs restart = ⊥

  pub data Turn (s : Server S) : Server S → Type 0 where
    begin :
        (op : Operation) (x : Inputs) (user_id id : String)
        → Turn s (record s {
          open_txs =
              record { op = op; inputs = x; user_id = user_id; container_id = id; stage = begun }
              ∷ s.open_txs;
        })
    -- findContainerForGuard waits for the lock of the row, and the container is the user's.
    find_and_lock :
        (before after : List Transaction) (x : Transaction) (c : Container)
        → s.open_txs ≡ before ++ record x { stage = begun } ∷ after
        → count (locks x.container_id) s.open_txs ≡ 0
        → (Rows.find_by_id_for_update x.container_id s.system.db).0 ≡ ok c
        → (c.user_id == x.user_id) ≡ true
        → Turn s (record s { open_txs = before ++ record x { stage = locked c } ∷ after })
    -- There is no active job, and the status that was read is not refused.
    look :
        (before after : List Transaction) (x : Transaction) (c : Container)
        → s.open_txs ≡ before ++ record x { stage = locked c } ∷ after
        → is_ok (Jobs.find_pending_or_running_by_target x.container_id s.system.db).0 ≡ false
        → refuses x.op c.status ≡ false
        → Turn s (record s { open_txs = before ++ record x { stage = cleared c } ∷ after })
    -- Save and the commit, which others see at once; then the request waits in sendJob.
    commit :
        (before after : List Transaction) (x : Transaction) (c : Container)
        → s.open_txs ≡ before ++ record x { stage = cleared c } ∷ after
        → (Jobs.save (job_of x) s.system.db).0 ≡ ok tt
        → Turn s (record {
          system = record s.system {
            db = (Jobs.save (job_of x) s.system.db).1;
            senders = job_of x ∷ s.system.senders;
          };
          open_txs = before ++ after;
        })
    -- A refusal, an error or the end of the request's context, at any point.
    rollback :
        (before after : List Transaction) (x : Transaction)
        → s.open_txs ≡ before ++ x ∷ after
        → Turn s (record s { open_txs = before ++ after })
    other :
        (t : System S) (st : Step rt service config pool_size s.system t)
        → IsAllowed s.open_txs st
        → Turn s (record s { system = t })
    -- The process ends, and with it its connections.
    crash :
        Turn s (record { system = recovered rt service config pool_size s.system; open_txs = [] })

  pub data Turns (s : Server S) : Server S → Type 0 where
    at_once : Turns s s
    further : {t u : Server S} → Turns s t → Turn t u → Turns s u
