-- ===== src/System/Exclusion.antt =====
-- What every reachable state of the server has: no two jobs at one container, and bounded queues.
use mathlib.Core.Path.{subst}
use go_container_manager.Prelude.{
  ℕ, ◌+◌, ◌≤◌, String, Bool, ◌≡◌, ◌≢◌, inl, inr, List, [], ◌∷◌, ◌++◌, arith, count, count-append,
  eq_refl, eq_iff, ◌==◌, Bool-cases,
}
use go_container_manager.Domain.{Job}
use go_container_manager.Db.{Db}
use go_container_manager.Repo.Jobs.{has_id, active_on}
use go_container_manager.Service.Containers
use go_container_manager.Service.Containers.{queue_capacity}
use go_container_manager.Service.Containers.Faults.{IsIdle}
use go_container_manager.Worker
use go_container_manager.Worker.{Runtime}
use go_container_manager.System.{
  System, Step, Reach, played, request, submit, enlist, send, give_up, receive, mark, work, settle,
  tick, restart, here, next,
}
use go_container_manager.System.Counting.{matches, active_on-two, stale-active_as}
use go_container_manager.System.Rows.{IsSound}
use go_container_manager.System.Invariant.{Inv}
use go_container_manager.System.Sending.{
  request-Inv, submit-Inv, enlist-Inv, send-Inv, give_up-Inv, receive-Inv,
}
use go_container_manager.System.Working.{mark-Inv, work-Inv, settle-Inv, tick-Inv, restart-Inv}

module _ {S : Type 0} (rt : Runtime S) (service : Containers.Config) (config : Worker.Config)
    (pool_size : ℕ) where
  -- Every step keeps the invariant, whichever statements fail and whatever Docker answers.
  pub Step-Inv :
      {s t : System S} → Step rt service config pool_size s t → Inv pool_size s → Inv pool_size t
  Step-Inv {s} (request op x user_id id) v =
      request-Inv rt service config pool_size s v op x user_id id
  Step-Inv {s} (submit x user_id name env command unused) v =
      submit-Inv rt service config pool_size s v x user_id name env command
  Step-Inv {s} (enlist before after c e unused) v =
      enlist-Inv rt service config pool_size s v (before ++ after) c unused
  Step-Inv {s} (send before after job e room) v =
      send-Inv rt service config pool_size s v before after job e room
  Step-Inv {s} (give_up before after job e) v =
      give_up-Inv rt service config pool_size s v before after job e
  Step-Inv {s} (receive job rest e room) v =
      receive-Inv rt service config pool_size s v job rest e room
  Step-Inv {s} (mark before after job e) v =
      mark-Inv rt service config pool_size s v before after job e
  Step-Inv {s} (work before after job clock e) v =
      work-Inv rt service config pool_size s v before after job clock e
  Step-Inv {s} (settle before after job r now e) v =
      settle-Inv rt service config pool_size s v before after job r now e
  Step-Inv {s} (tick now) v = tick-Inv rt service config pool_size s v now
  Step-Inv {s} restart v = restart-Inv rt service config pool_size s v

  -- Where no job of a new container is active yet when its Create stores its job, every state that
  -- the server reaches from one that satisfies the invariant satisfies it: no transaction is open,
  -- no container has two active job rows, no id has two rows, every job on its way has its own
  -- active row, the channel holds at most 100 jobs and no more workers are busy than there are.
  pub Reach-Inv :
      {s t : System S} → Reach rt service config pool_size s t → Inv pool_size s → Inv pool_size t
  Reach-Inv here v = v
  Reach-Inv (next r st) v = Step-Inv st (Reach-Inv r v)

-- A server that is just started on a database.
abbrev pub booting : {S : Type 0} → Db → S → System S
booting db outside = record {
  db = db;
  outside = outside;
  creating = [];
  senders = [];
  queue = [];
  workers = [];
}

pub booting-Inv :
    {S : Type 0} (pool_size : ℕ) (db : Db) (outside : S)
    → IsIdle db
    → ((target : String) → count (active_on target) db.jobs ≤ 1)
    → ((id : String) → count (has_id id) db.jobs ≤ 1)
    → Inv pool_size (booting db outside)
unfolding count
booting-Inv pool_size db outside i one_active one_row = record {
  idle = i;
  sound = record { one_active = one_active; one_row = one_row; backed = λ id target. omega arith };
  queue_bound = omega arith;
  pool_bound = omega arith;
}

module _ (rows : List Job) (a b c : List Job) (j k : Job)
    (s : IsSound rows (a ++ (j ∷ (b ++ (k ∷ c))))) where
  occurs :
      (p : Job → Bool)
      → count p (a ++ (j ∷ (b ++ (k ∷ c))))
        ≡ count p a + count p (j ∷ []) + count p b + count p (k ∷ []) + count p c
  unfolding count
  occurs p = ground (arith, count-append p a (j ∷ (b ++ (k ∷ c))), count-append p b (k ∷ c))

  distinct_targets : j.target_resource_id ≢ k.target_resource_id
  unfolding count
  distinct_targets e =
      let t = j.target_resource_id in
      elim (Bool-cases (j.id == k.id)) [
        | inl same ↦ ground (
          arith,
          s.backed j.id t,
          s.one_row j.id,
          stale-active_as j.id t rows,
          occurs (matches j.id t),
          eq_refl j.id,
          eq_refl t,
          eq_iff j.id k.id,
        )
        | inr differ ↦ ground (
          arith,
          s.backed j.id t,
          s.backed k.id t,
          s.one_active t,
          active_on-two j.id k.id t rows (λ p. absurd (ground (arith, eq_iff j.id k.id))),
          occurs (matches j.id t),
          occurs (matches k.id t),
          eq_refl j.id,
          eq_refl k.id,
          eq_refl t,
        )
      ]

module _ {S : Type 0} (rt : Runtime S) (service : Containers.Config) (config : Worker.Config)
    (pool_size : ℕ) where
  -- In every state that the server reaches, through any interleaving of requests, worker steps,
  -- cleaner ticks, failures and restarts, from one that satisfies the invariant, where no job of a
  -- new container is active yet when its Create stores its job, two jobs that are at work, in the
  -- channel or waiting to be sent never target the same container.
  pub exclusive :
      (s t : System S) (a b c : List Job) (j k : Job)
      → Inv pool_size s
      → Reach rt service config pool_size s t
      → played t ≡ a ++ (j ∷ (b ++ (k ∷ c)))
      → j.target_resource_id ≢ k.target_resource_id
  exclusive s t a b c j k v r e =
      distinct_targets t.db.jobs a b c j k
        (subst (IsSound t.db.jobs) e (Reach-Inv rt service config pool_size r v).sound)
