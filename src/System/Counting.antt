-- ===== src/System/Counting.antt =====
-- Counting rows and jobs by id, target and status.
use go_container_manager.Prelude.{
  ℕ, ◌+◌, ◌≤◌, String, Bool, true, false, not, ◌&&◌, ◌≡◌, refl, ◌≢◌, List, [], ◌∷◌, ◌==◌, eq_iff,
  arith, count, select, update_where, delete_where, if◌then◌else◌,
}
use go_container_manager.Domain.{Job, is_active, is_pending, is_running_job}
use go_container_manager.Repo.Jobs.{has_id, active_on, overwrite, interrupt, is_expired}

-- The job with this id for this target.
abbrev pub matches : String → String → Job → Bool
matches id target j = j.id == id && j.target_resource_id == target

abbrev pub active_as : String → String → Job → Bool
active_as id target j = matches id target j && is_active j.status

abbrev pub stale : String → Job → Bool
stale id j = j.id == id && not (is_active j.status)

module _ (id : String) where
  pub stale-active_as :
      (target : String) (rows : List Job)
      → count (stale id) rows + count (active_as id target) rows ≤ count (has_id id) rows
  unfolding count
  stale-active_as target [] = omega arith
  stale-active_as target (r ∷ rows) = ground (arith, stale-active_as target rows)

  pub active_as-active_as :
      (t u : String) (rows : List Job)
      → t ≢ u
      → count (active_as id t) rows + count (active_as id u) rows ≤ count (has_id id) rows
  unfolding count
  active_as-active_as t u [] ne = omega arith
  active_as-active_as t u (r ∷ rows) ne = ground (
    arith,
    active_as-active_as t u rows ne,
    eq_iff r.target_resource_id t,
    eq_iff r.target_resource_id u,
  )

-- An update by id with the status of a job `k`.
module _ (k : Job) where
  pub has_id-update :
      (id : String) (rows : List Job)
      → count (has_id id) (update_where (has_id k.id) (overwrite k) rows) ≡ count (has_id id) rows
  unfolding count update_where overwrite
  has_id-update id [] = refl
  has_id-update id (r ∷ rows) = ground (arith, has_id-update id rows)

  pub active_on-end :
      (target : String) (rows : List Job)
      → is_active k.status ≡ false
      → count (active_on target) (update_where (has_id k.id) (overwrite k) rows)
        ≤ count (active_on target) rows
  unfolding count update_where overwrite
  active_on-end target [] h = omega arith
  active_on-end target (r ∷ rows) h = ground (arith, active_on-end target rows h)

  pub active_as-end :
      (id target : String) (rows : List Job)
      → is_active k.status ≡ false
      → count (active_as id target) (update_where (has_id k.id) (overwrite k) rows)
        ≡ (if k.id == id then 0 else count (active_as id target) rows)
  unfolding count update_where overwrite
  active_as-end id target [] h = ground arith
  active_as-end id target (r ∷ rows) h =
      ground
        (arith, active_as-end id target rows h, eq_iff r.id id, eq_iff r.id k.id, eq_iff k.id id)

  pub active_on-mark :
      (target : String) (rows : List Job)
      → count (active_on target) (update_where (has_id k.id) (overwrite k) rows)
        ≤ count (active_on target) rows + count (stale k.id) rows
  unfolding count update_where overwrite
  active_on-mark target [] = omega arith
  active_on-mark target (r ∷ rows) = ground (arith, active_on-mark target rows)

  pub active_as-mark :
      (id target : String) (rows : List Job)
      → is_active k.status ≡ true
      → count (active_as id target) rows
        ≤ count (active_as id target) (update_where (has_id k.id) (overwrite k) rows)
  unfolding count update_where overwrite
  active_as-mark id target [] h = omega arith
  active_as-mark id target (r ∷ rows) h = ground (arith, active_as-mark id target rows h)

-- What the cleaner deletes was not active.
module _ (now older_than : ℕ) where
  pub has_id-purge :
      (id : String) (rows : List Job)
      → count (has_id id) (delete_where (is_expired now older_than) rows) ≤ count (has_id id) rows
  unfolding count delete_where
  has_id-purge id [] = omega arith
  has_id-purge id (r ∷ rows) = ground (arith, has_id-purge id rows)

  pub active_on-purge :
      (target : String) (rows : List Job)
      → count (active_on target) (delete_where (is_expired now older_than) rows)
        ≡ count (active_on target) rows
  unfolding count delete_where
  active_on-purge target [] = refl
  active_on-purge target (r ∷ rows) = ground (arith, active_on-purge target rows)

  pub active_as-purge :
      (id target : String) (rows : List Job)
      → count (active_as id target) (delete_where (is_expired now older_than) rows)
        ≡ count (active_as id target) rows
  unfolding count delete_where
  active_as-purge id target [] = refl
  active_as-purge id target (r ∷ rows) = ground (arith, active_as-purge id target rows)

-- Recovery: the running jobs fail, and the pending ones are read.
module _ (msg : String) where
  pub has_id-interrupt :
      (id : String) (rows : List Job)
      → count (has_id id) (update_where (λ j. is_running_job j.status) (interrupt msg) rows)
        ≡ count (has_id id) rows
  unfolding count update_where interrupt
  has_id-interrupt id [] = refl
  has_id-interrupt id (r ∷ rows) = ground (arith, has_id-interrupt id rows)

  pub active_on-interrupt :
      (target : String) (rows : List Job)
      → count (active_on target) (update_where (λ j. is_running_job j.status) (interrupt msg) rows)
        ≤ count (active_on target) rows
  unfolding count update_where interrupt
  active_on-interrupt target [] = omega arith
  active_on-interrupt target (r ∷ rows) = ground (arith, active_on-interrupt target rows)

pub matches-pending :
    (id target : String) (rows : List Job)
    → count (matches id target) (select (λ j. is_pending j.status) rows)
      ≤ count (active_as id target) rows
unfolding count select
matches-pending id target [] = omega arith
matches-pending id target (r ∷ rows) = ground (arith, matches-pending id target rows)

-- Two ids that are active on one target are two rows.
pub active_on-two :
    (i k target : String) (rows : List Job)
    → i ≢ k
    → count (active_as i target) rows + count (active_as k target) rows
      ≤ count (active_on target) rows
unfolding count
active_on-two i k target [] ne = omega arith
active_on-two i k target (r ∷ rows) ne =
    ground (arith, active_on-two i k target rows ne, eq_iff r.id i, eq_iff r.id k)
