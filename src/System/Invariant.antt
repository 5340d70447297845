-- ===== src/System/Invariant.antt =====
-- The invariant of the running server, kept by every step.
use mathlib.Core.List.{map-append}
use go_container_manager.Prelude.{
  ℕ, suc, ◌+◌, ◌≤◌, Bool, ◌≡◌, List, ◌∷◌, ◌++◌, map, arith, count, count-append, length,
  length-append,
}
use go_container_manager.Domain.{Job}
use go_container_manager.Db.{Db}
use go_container_manager.Service.Containers.{queue_capacity}
use go_container_manager.Service.Containers.Faults.{IsIdle}
use go_container_manager.System.{Creation, System, Task, on_way, played}
use go_container_manager.System.Rows.{IsSound}

pub record Inv (pool_size : ℕ) {S : Type 0} (s : System S) : Type 0 where
  pub idle : IsIdle s.db
  pub sound : IsSound s.db.jobs (played s)
  pub queue_bound : length s.queue ≤ queue_capacity
  pub pool_bound : length s.workers ≤ pool_size

-- The counts of the jobs on their way, part by part.
module _ (p : Job → Bool) where
  pub count-on_way :
      (workers : List Task) (queue senders : List Job)
      → count p (on_way workers queue senders)
        ≡ count p (map (λ t. t.job) workers) + count p queue + count p senders
  count-on_way workers queue senders = omega (
    arith,
    count-append p (map (λ t. t.job) workers ++ queue) senders,
    count-append p (map (λ t. t.job) workers) queue,
  )

  pub count-middle :
      (before after : List Job) (j : Job)
      → count p (before ++ j ∷ after) ≡ count p (j ∷ (before ++ after))
  unfolding count
  count-middle before after j =
      ground (arith, count-append p before (j ∷ after), count-append p before after)

  pub count-task :
      (before after : List Task) (t : Task)
      → count p (map (λ u. u.job) (before ++ t ∷ after))
        ≡ count p (t.job ∷ map (λ u. u.job) (before ++ after))
  count-task before after t =
      rw (map-append, map-append)
        (count-middle (map (λ u. u.job) before) (map (λ u. u.job) after) t.job)

pub length-middle :
    {A : Type 0} (before after : List A) (a : A)
    → length (before ++ a ∷ after) ≡ suc (length (before ++ after))
length-middle before after a =
    omega (arith, length-append before (a ∷ after), length-append before after)

module _ {S : Type 0} (pool_size : ℕ) (s : System S) (v : Inv pool_size s) where
  -- A call that failed.
  pub same_jobs :
      (db : Db) (creating : List Creation)
      → IsIdle db
      → db.jobs ≡ s.db.jobs
      → Inv pool_size (record s { db = db; creating = creating })
  same_jobs db creating i e = record {
    idle = i;
    sound = rw e v.sound;
    queue_bound = v.queue_bound;
    pool_bound = v.pool_bound;
  }
