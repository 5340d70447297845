-- ===== src/System/Rows.antt =====
-- What the job table and the jobs on their way owe one another, and that each change keeps it.
use go_container_manager.Prelude.{
  ℕ, suc, ◌≤◌, String, true, false, ◌≡◌, inl, inr, List, ◌∷◌, eq_iff, eq_refl, arith, count,
  update_where, delete_where,
}
use go_container_manager.Domain.{Job, is_active}
use go_container_manager.Repo.Jobs.{has_id, active_on, overwrite, is_expired}
use native.Mathlib.Nat.{le_trans}
use go_container_manager.App.{interrupted_text}
use go_container_manager.System.Changes.{IsRecovered}
use go_container_manager.System.Counting.{
  matches, active_as, stale-active_as, active_as-active_as, has_id-update, active_on-end,
  active_as-end, active_on-mark, active_on-interrupt, has_id-interrupt, active_as-mark,
  has_id-purge, active_on-purge, active_as-purge,
}

-- A container has at most one active job, an id at most one row, and every job on its way has its
-- own active row.
pub record IsSound (rows played : List Job) : Type 0 where
  pub one_active : (target : String) → count (active_on target) rows ≤ 1
  pub one_row : (id : String) → count (has_id id) rows ≤ 1
  pub backed :
      (id target : String) → count (matches id target) played ≤ count (active_as id target) rows

-- No job more is on its way.
pub IsSound-fewer :
    (rows played fewer : List Job)
    → IsSound rows played
    → ((id target : String) → count (matches id target) fewer ≤ count (matches id target) played)
    → IsSound rows fewer
IsSound-fewer rows played fewer s le = record {
  one_active = s.one_active;
  one_row = s.one_row;
  backed = λ id target. omega (arith, s.backed id target, le id target);
}

-- A new pending job for an idle target, with an unused id.
pub IsSound-add :
    (rows played : List Job) (j : Job)
    → IsSound rows played
    → is_active j.status ≡ true
    → count (active_on j.target_resource_id) rows ≡ 0
    → count (has_id j.id) rows ≡ 0
    → IsSound (j ∷ rows) (j ∷ played)
unfolding count
IsSound-add rows played j s a idle fresh = record {
  one_active = λ target. ground (arith, s.one_active target, eq_iff j.target_resource_id target);
  one_row = λ id. ground (arith, s.one_row id, eq_iff j.id id);
  backed = λ id target. ground (arith, s.backed id target);
}

module _ (rows played rest : List Job) (j k : Job)
    (taken : (id target : String)
      → count (matches id target) played ≡ count (matches id target) (j ∷ rest))
    (same : k.id ≡ j.id) where
  pub own_row :
      IsSound rows played
      → suc (count (matches j.id j.target_resource_id) rest)
        ≤ count (active_as j.id j.target_resource_id) rows
  unfolding count
  own_row s = ground (
    arith,
    s.backed j.id j.target_resource_id,
    taken j.id j.target_resource_id,
    eq_refl j.id,
    eq_refl j.target_resource_id,
  )

  pub no_other : IsSound rows played → (target : String) → count (matches j.id target) rest ≡ 0
  unfolding count
  no_other s target = ground (
    arith,
    own_row s,
    s.backed j.id target,
    taken j.id target,
    s.one_row j.id,
    stale-active_as j.id j.target_resource_id rows,
    active_as-active_as j.id target j.target_resource_id rows,
    eq_iff j.target_resource_id target,
  )

  -- One of the jobs on their way ends and its row becomes inactive.
  pub IsSound-end :
      IsSound rows played
      → is_active k.status ≡ false
      → IsSound (update_where (has_id k.id) (overwrite k) rows) rest
  unfolding count
  IsSound-end s a = record {
    one_active = λ target. omega (arith, s.one_active target, active_on-end k target rows a);
    one_row = λ id. rw (has_id-update k id rows) (s.one_row id);
    backed = λ id target. ground (
      arith,
      active_as-end k id target rows a,
      eq_iff k.id id,
      no_other s target,
      s.backed id target,
      taken id target,
    );
  }

  -- One of the jobs on their way is marked as running.
  pub IsSound-mark :
      IsSound rows played
      → is_active k.status ≡ true
      → IsSound (update_where (has_id k.id) (overwrite k) rows) played
  unfolding count
  IsSound-mark s a = record {
    one_active = λ target. ground (
      arith,
      active_on-mark k target rows,
      own_row s,
      s.one_active target,
      s.one_row j.id,
      stale-active_as j.id j.target_resource_id rows,
    );
    one_row = λ id. rw (has_id-update k id rows) (s.one_row id);
    backed = λ id target. omega (arith, s.backed id target, active_as-mark k id target rows a);
  }

-- The cleaner.
pub IsSound-purge :
    (now older_than : ℕ) (rows played : List Job)
    → IsSound rows played
    → IsSound (delete_where (is_expired now older_than) rows) played
IsSound-purge now older_than rows played s = record {
  one_active = λ target. rw (active_on-purge now older_than target rows) (s.one_active target);
  one_row = λ id. omega (arith, s.one_row id, has_id-purge now older_than id rows);
  backed = λ id target. rw (active_as-purge now older_than id target rows) (s.backed id target);
}

-- A restart: the jobs on their way are those that were read back.
pub IsSound-restart :
    (rows played after queue : List Job)
    → IsSound rows played
    → IsRecovered rows after queue
    → IsSound after queue
IsSound-restart rows played after queue s r = elim r.rewritten [
  | inl e ↦ record {
    one_active = λ target. rw e (s.one_active target);
    one_row = λ id. rw e (s.one_row id);
    backed = r.from_rows;
  }
  | inr e ↦ record {
    one_active = λ target.
        rw e (le_trans (active_on-interrupt interrupted_text target rows) (s.one_active target));
    one_row = λ id. rw (e, has_id-interrupt interrupted_text id rows) (s.one_row id);
    backed = r.from_rows;
  }
]
