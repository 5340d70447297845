-- ===== src/System/Guarded/Counts.antt =====
-- How the changes of the job table and of the shelf move the counts of Guarded.
use go_container_manager.Prelude.{
  ℕ, ◌+◌, ◌≤◌, String, Bool, true, false, ◌&&◌, ◌≡◌, ◌≢◌, refl, Option, List, [], ◌∷◌, ◌++◌, ◌==◌,
  eq_iff, arith, count, count-append, update_where, delete_where, select, map,
}
use go_container_manager.Domain.{ContainerStatus, Job, is_pending, is_running_job}
use go_container_manager.Repo.Jobs.{has_id, active_on, overwrite, interrupt, is_expired}
use go_container_manager.System.{Stage, Task, received, ready, worked, on_way}
use go_container_manager.System.Invariant.{count-on_way}
use go_container_manager.System.Counting.{matches}
use go_container_manager.System.Guarded.{
  misfit, pending_misfit, running_as, held, busy, held_at, busy_at,
}

module _ (k : Job) where
  pub pending_misfit-update :
      (f : String → Option ContainerStatus) (rows : List Job)
      → is_pending k.status ≡ false
      → count (pending_misfit f) (update_where (has_id k.id) (overwrite k) rows)
        ≤ count (pending_misfit f) rows
  unfolding count update_where overwrite
  pending_misfit-update f [] h = omega arith
  pending_misfit-update f (r ∷ rows) h = ground (arith, pending_misfit-update f rows h)

  pub running_as-other :
      (id target : String) (rows : List Job)
      → k.id ≢ id
      → count (running_as id target) (update_where (has_id k.id) (overwrite k) rows)
        ≡ count (running_as id target) rows
  unfolding count update_where overwrite
  running_as-other id target [] ne = refl
  running_as-other id target (r ∷ rows) ne =
      ground (arith, running_as-other id target rows ne, eq_iff r.id id, eq_iff r.id k.id)

  pub running_as-own :
      (target : String) (rows : List Job)
      → is_running_job k.status ≡ true
      → count (matches k.id target) rows
        ≤ count (running_as k.id target) (update_where (has_id k.id) (overwrite k) rows)
  unfolding count update_where overwrite
  running_as-own target [] h = omega arith
  running_as-own target (r ∷ rows) h = ground (arith, running_as-own target rows h)

module _ (now older_than : ℕ) where
  pub pending_misfit-purge :
      (f : String → Option ContainerStatus) (rows : List Job)
      → count (pending_misfit f) (delete_where (is_expired now older_than) rows)
        ≤ count (pending_misfit f) rows
  unfolding count delete_where
  pending_misfit-purge f [] = omega arith
  pending_misfit-purge f (r ∷ rows) = ground (arith, pending_misfit-purge f rows)

  pub running_as-purge :
      (id target : String) (rows : List Job)
      → count (running_as id target) (delete_where (is_expired now older_than) rows)
        ≡ count (running_as id target) rows
  unfolding count delete_where
  running_as-purge id target [] = refl
  running_as-purge id target (r ∷ rows) = ground (arith, running_as-purge id target rows)

pub pending_misfit-interrupt :
    (msg : String) (f : String → Option ContainerStatus) (rows : List Job)
    → count (pending_misfit f) (update_where (λ j. is_running_job j.status) (interrupt msg) rows)
      ≡ count (pending_misfit f) rows
unfolding count update_where interrupt
pending_misfit-interrupt msg f [] = refl
pending_misfit-interrupt msg f (r ∷ rows) = ground (arith, pending_misfit-interrupt msg f rows)

pub misfit-pending :
    (f : String → Option ContainerStatus) (rows : List Job)
    → count (misfit f) (select (λ j. is_pending j.status) rows) ≡ count (pending_misfit f) rows
unfolding count select
misfit-pending f [] = refl
misfit-pending f (r ∷ rows) = ground (arith, misfit-pending f rows)

-- The jobs for a container.
abbrev pub for_target : String → Job → Bool
for_target target j = j.target_resource_id == target

abbrev pub pending_on : String → Job → Bool
pending_on target j = is_pending j.status && for_target target j

pub pending_on-running_as :
    (id target : String) (rows : List Job)
    → count (pending_on target) rows + count (running_as id target) rows
      ≤ count (active_on target) rows
unfolding count
pending_on-running_as id target [] = omega arith
pending_on-running_as id target (r ∷ rows) = ground (arith, pending_on-running_as id target rows)

-- A change of the shelf at one container matters to no job for another.
module _ (f g : String → Option ContainerStatus) (target : String)
    (others : (id : String) → id ≢ target → g id ≡ f id) where
  pub misfit-others :
      (js : List Job) → count (for_target target) js ≡ 0 → count (misfit g) js ≡ count (misfit f) js
  unfolding count
  misfit-others [] h = refl
  misfit-others (j ∷ js) h =
      ground
        (arith, misfit-others js, others j.target_resource_id, eq_iff j.target_resource_id target)

  pub pending_misfit-others :
      (rows : List Job)
      → count (pending_on target) rows ≡ 0
      → count (pending_misfit g) rows ≡ count (pending_misfit f) rows
  unfolding count
  pending_misfit-others [] h = refl
  pending_misfit-others (j ∷ rows) h = ground (
    arith,
    pending_misfit-others rows,
    others j.target_resource_id,
    eq_iff j.target_resource_id target,
  )

-- The counts of the jobs in the workers' hands.
module _ (p : Job → Bool) where
  pub count-held :
      (before after : List Task) (t : Task)
      → count p (held (before ++ t ∷ after))
        ≡ count p (held_at t.stage t.job) + count p (held (before ++ after))
  unfolding count held
  count-held [] after t = count-append p (held_at t.stage t.job) (held after)
  count-held (b ∷ before) after t = omega (
    arith,
    count-held before after t,
    count-append p (held_at b.stage b.job) (held (before ++ t ∷ after)),
    count-append p (held_at b.stage b.job) (held (before ++ after)),
  )

  pub count-busy :
      (before after : List Task) (t : Task)
      → count p (busy (before ++ t ∷ after))
        ≡ count p (busy_at t.stage t.job) + count p (busy (before ++ after))
  unfolding count busy
  count-busy [] after t = count-append p (busy_at t.stage t.job) (busy after)
  count-busy (b ∷ before) after t = omega (
    arith,
    count-busy before after t,
    count-append p (busy_at b.stage b.job) (busy (before ++ t ∷ after)),
    count-append p (busy_at b.stage b.job) (busy (before ++ after)),
  )

  pub at_most : (stage : Stage) (j : Job) → count p (held_at stage j) ≤ count p (j ∷ [])
  unfolding count
  at_most received j = omega arith
  at_most ready j = omega arith
  at_most (worked _) j = omega arith

  pub busy_at-le : (stage : Stage) (j : Job) → count p (busy_at stage j) ≤ count p (j ∷ [])
  unfolding count
  busy_at-le received j = omega arith
  busy_at-le ready j = omega arith
  busy_at-le (worked _) j = omega arith

  pub held-le : (ts : List Task) → count p (held ts) ≤ count p (map (λ t. t.job) ts)
  unfolding count held
  held-le [] = omega arith
  held-le (t ∷ ts) =
      ground
        (arith, held-le ts, at_most t.stage t.job, count-append p (held_at t.stage t.job) (held ts))

  pub busy-le : (ts : List Task) → count p (busy ts) ≤ count p (map (λ t. t.job) ts)
  unfolding count busy
  busy-le [] = omega arith
  busy-le (t ∷ ts) = ground (
    arith,
    busy-le ts,
    busy_at-le t.stage t.job,
    count-append p (busy_at t.stage t.job) (busy ts),
  )

  pub count-waiting :
      (hs queue senders : List Job)
      → count p (hs ++ queue ++ senders) ≡ count p hs + count p queue + count p senders
  count-waiting hs queue senders =
      omega (arith, count-append p (hs ++ queue) senders, count-append p hs queue)

  -- No more jobs are still to be worked on than are on their way.
  pub waiting-le :
      (ts : List Task) (queue senders : List Job)
      → count p (held ts ++ queue ++ senders) ≤ count p (on_way ts queue senders)
  waiting-le ts queue senders =
      omega
        (arith, held-le ts, count-waiting (held ts) queue senders, count-on_way p ts queue senders)
