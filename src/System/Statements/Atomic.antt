-- ===== src/System/Statements/Atomic.antt =====
-- A run with the transactions' statements in any order is a run in which each is one step.
use mathlib.Core.Path.{subst}
use go_container_manager.Prelude.{
  All-apart, ℕ, String, true, ◌≡◌, ◌∙◌, refl, ap, List, [], ◌∷◌, ◌++◌, arith, count,
}
use go_container_manager.Exec.{ok}
use go_container_manager.Domain.{Container, Job}
use go_container_manager.Db.{Tables, Db, healthy}
use go_container_manager.Repo.Jobs
use go_container_manager.Repo.Jobs.{has_id}
use go_container_manager.Service.Containers
use go_container_manager.Service.Containers.{
  create_job, start_conflict, stop_conflict, delete_conflict, not_running, start_guard, stop_guard,
  delete_guard,
}
use go_container_manager.Domain.{is_running}
use go_container_manager.Service.Containers.Guards.{Admits, guard-Admits}
use go_container_manager.Service.Containers.Operations.{Operation, starts, stops, deletes, refuses}
use go_container_manager.Repo.Containers.{scan_container}
use go_container_manager.Worker
use go_container_manager.Worker.{Runtime}
use go_container_manager.Worker.Kept.{IsWorking}
use go_container_manager.System.{
  System, Step, Reach, request, restart, here, next, admit, requested,
}
use go_container_manager.System.Invariant.{Inv}
use go_container_manager.System.Exclusion.{Step-Inv}
use go_container_manager.System.Runs.{joined}
use go_container_manager.System.Statements.{
  begun, cleared, Transaction, job_of, Server, Turn, Turns, begin, find_and_lock, look, commit,
  rollback, other, crash, at_once, further,
}
use go_container_manager.System.Statements.Locked.{HasCleared, IsHeld, IsLocked}
use go_container_manager.System.Statements.Kept.{
  begin-IsLocked, rollback-IsLocked, lock-IsLocked, look-IsLocked, commit-IsLocked, stored_job,
}
use go_container_manager.System.Statements.Others.{Step-IsLocked}
use go_container_manager.System.Statements.Working.{Step-IsWorking}

is_healthy : (db : Db) → IsWorking db → db ≡ healthy db.tables
is_healthy db w = ground arith

admit-Admits :
    (op : Operation) (t : Tables) (user_id id : String) (job : Job)
    → Admits (refuses op) t user_id id job.id
    → admit op user_id id job (healthy t) ≡ (ok tt, healthy (record t { jobs = job ∷ t.jobs }))
unfolding admit start_guard stop_guard delete_guard
admit-Admits starts t user_id id job a =
    guard-Admits is_running start_conflict t user_id id job true a
admit-Admits stops t user_id id job a =
    guard-Admits not_running stop_conflict t user_id id job true a
admit-Admits deletes t user_id id job a =
    guard-Admits is_running delete_conflict t user_id id job true a

-- What the guard has read is what it would read at the commit.
cleared-Admits :
    (x : Transaction) (c : Container) (t : Tables)
    → HasCleared t x c
    → count (has_id x.inputs.job_id) t.jobs ≡ 0
    → Admits (refuses x.op) t x.user_id x.container_id x.inputs.job_id
unfolding scan_container
cleared-Admits x c t h fresh = record {
  row = h.read.row;
  found = h.read.found;
  owned = ap (λ k. k.user_id) h.read.same ∙ h.read.owned;
  idle = h.idle;
  ready = ap (λ k. refuses x.op k.status) h.read.same ∙ h.ready;
  fresh = fresh;
}

pub at_start : (t : Tables) → IsLocked t []
unfolding count
at_start t = record { held = tt; alone = λ id. omega arith }

module _ {S : Type 0} (rt : Runtime S) (service : Containers.Config) (config : Worker.Config)
    (pool_size : ℕ) where
  -- The commit is the atomic request.
  committed :
      (s : System S) (x : Transaction) (c : Container)
      → IsWorking s.db
      → HasCleared s.db.tables x c
      → (Jobs.save (job_of x) s.db).0 ≡ ok tt
      → requested rt service config pool_size x.op x.inputs x.user_id x.container_id s
        ≡ record s { db = (Jobs.save (job_of x) s.db).1; senders = job_of x ∷ s.senders }
  unfolding create_job
  committed s x c w h saved =
      let stored = stored_job (job_of x) s.db w saved in
      let atomic =
        ap (admit x.op x.user_id x.container_id (job_of x)) (is_healthy s.db w)
        ∙ admit-Admits x.op s.db.tables x.user_id x.container_id (job_of x)
            (cleared-Admits x c s.db.tables h stored.0) in
      let plain = is_healthy (Jobs.save (job_of x) s.db).1 stored.2 ∙ ap healthy stored.1 in
      rw (atomic, plain) refl

  pub record IsSafe (s : Server S) : Type 0 where
    pub inv : Inv pool_size s.system
    pub working : IsWorking s.system.db
    pub locked : IsLocked s.system.db.tables s.open_txs

  -- A step of the transactions that stores nothing.
  unchanged :
      (s : Server S) (txs : List Transaction)
      → IsSafe s
      → IsLocked s.system.db.tables txs
      → Reach rt service config pool_size s.system s.system × IsSafe (record s { open_txs = txs })
  unchanged s txs v l = (here, record { inv = v.inv; working = v.working; locked = l })

  stepped :
      (s : Server S) (t : System S) (txs : List Transaction)
      → Step rt service config pool_size s.system t
      → IsSafe s
      → IsLocked t.db.tables txs
      → Reach rt service config pool_size s.system t
        × IsSafe (record { system = t; open_txs = txs })
  stepped s t txs st v l = (
    next here st,
    record {
      inv = Step-Inv rt service config pool_size st v.inv;
      working = Step-IsWorking rt service config pool_size v.working st;
      locked = l;
    },
  )

  Turn-refines :
      {s t : Server S}
      → Turn rt service config pool_size s t
      → IsSafe s
      → Reach rt service config pool_size s.system t.system × IsSafe t
  Turn-refines {s} (begin op x user_id id) v = unchanged s _ v (
      begin-IsLocked s.system.db.tables [] []
        (record { op = op; inputs = x; user_id = user_id; container_id = id; stage = begun })
        s.open_txs v.locked)
  Turn-refines {s} (find_and_lock before after x c e free found owned) v = unchanged s _ v (
      lock-IsLocked s.system.db v.working before after x c (rw⁻¹ e v.locked) (rw⁻¹ e free) found
        owned)
  Turn-refines {s} (look before after x c e idle ready) v =
      unchanged s _ v
        (look-IsLocked s.system.db v.working before after x c (rw⁻¹ e v.locked) idle ready)
  Turn-refines {s} (commit before after x c e saved) v =
      let l = subst (IsLocked s.system.db.tables) e v.locked in
      let read =
        (All-apart (IsHeld s.system.db.tables) before after (record x { stage = cleared c })
          l.held).0 in
      stepped s _ (before ++ after)
        (subst (Step rt service config pool_size s.system)
          (committed s.system (record x { stage = cleared c }) c v.working read saved)
          (request x.op x.inputs x.user_id x.container_id))
        v (commit-IsLocked s.system.db v.working before after x c l saved)
  Turn-refines {s} (rollback before after x e) v =
      unchanged s _ v (rollback-IsLocked s.system.db.tables before after x (rw⁻¹ e v.locked))
  Turn-refines {s} (other t st allowed) v = stepped s t s.open_txs st v (
      Step-IsLocked rt service config pool_size s.system v.inv v.working s.open_txs v.locked st
        allowed)
  Turn-refines {s} crash v = stepped s _ [] restart v (at_start _)

  Turns-refine :
      {s t : Server S}
      → Turns rt service config pool_size s t
      → IsSafe s
      → Reach rt service config pool_size s.system t.system × IsSafe t
  Turns-refine at_once v = (here, v)
  Turns-refine (further r turn) v =
      let (p, w) = Turns-refine r v in
      let (q, u) = Turn-refines turn w in (joined rt service config pool_size p q, u)

  -- From a state of the server that satisfies the invariant, with no transaction open and no
  -- statement failing: whatever the guarded transactions of Start, Stop and Delete do, statement
  -- by statement, any number of them open at a time and among the other steps of the server, a
  -- state is reached that the server also reaches with each such transaction as one step. The
  -- other steps are allowed as follows: the work on a job, and the storing of a new container's
  -- job, wait for the lock of that container's row.
  pub statements_refine :
      (s : System S) (t : Server S)
      → Inv pool_size s
      → IsWorking s.db
      → Turns rt service config pool_size (record { system = s; open_txs = [] }) t
      → Reach rt service config pool_size s t.system
  statements_refine s t v w r =
      (Turns-refine r (record { inv = v; working = w; locked = at_start s.db.tables })).0
