-- ===== src/System/Guarded/Alone.antt =====
-- While a job is on its way no other job on its way, and no pending row, is for its container.
use go_container_manager.Prelude.{
  ◌≤◌, String, Bool, true, ◌≡◌, inl, inr, some, List, [], ◌∷◌, arith, ◌==◌, eq_iff, eq_refl, count,
  find, find-none_iff, find-passes, Option-cases, Bool-cases,
}
use go_container_manager.Domain.{Job}
use go_container_manager.Repo.Jobs.{active_on}
use go_container_manager.System.Counting.{matches, active_as, stale-active_as, active_on-two}
use go_container_manager.System.Rows.{IsSound}
use go_container_manager.System.Guarded.Counts.{for_target, pending_on, pending_on-running_as}
use go_container_manager.System.Guarded.{running_as}

pub find-count :
    (q p : Job → Bool) (k : Job) (xs : List Job) → find q xs ≡ some k → p k ≡ true → 1 ≤ count p xs
unfolding find count
find-count q p k [] e h = cc
find-count q p k (x ∷ xs) e h = ground (arith, find-count q p k xs)

active_as-active_on :
    (id target : String) (rows : List Job)
    → count (active_as id target) rows ≤ count (active_on target) rows
unfolding count
active_as-active_on id target [] = omega arith
active_as-active_on id target (r ∷ rows) = ground (arith, active_as-active_on id target rows)

module _ (rows : List Job) (target : String) where
  -- A container without an active row has no job on its way.
  pub idle_unplayed :
      (played : List Job)
      → IsSound rows played
      → count (active_on target) rows ≡ 0
      → count (for_target target) played ≡ 0
  idle_unplayed played s idle = elim (Option-cases (find (for_target target) played)) [
    | inl e ↦ (find-none_iff (for_target target) played).0 e
    | inr (k, e) ↦ absurd (
        ground (
          arith,
          find-count (for_target target) (matches k.id target) k played e,
          find-passes (for_target target) played {x = k} e,
          s.backed k.id target,
          active_as-active_on k.id target rows,
          eq_refl k.id,
        ))
  ]

  pub pending_alone :
      (played : List Job) (id : String)
      → IsSound rows played
      → 1 ≤ count (running_as id target) rows
      → count (pending_on target) rows ≡ 0
  pending_alone played id s own =
      omega (arith, s.one_active target, pending_on-running_as id target rows)

pub alone :
    (rows rest : List Job) (j : Job)
    → IsSound rows (j ∷ rest)
    → count (for_target j.target_resource_id) rest ≡ 0
unfolding count
alone rows rest j s =
    let t = j.target_resource_id in
    elim (Option-cases (find (for_target t) rest)) [
      | inl e ↦ (find-none_iff (for_target t) rest).0 e
      | inr (k, e) ↦
          let passes = find-passes (for_target t) rest {x = k} e in
          let own = s.backed j.id t in
          elim (Bool-cases (j.id == k.id)) [
            | inl same ↦ absurd (
                ground (
                  arith,
                  find-count (for_target t) (matches j.id t) k rest e,
                  passes,
                  own,
                  s.one_row j.id,
                  stale-active_as j.id t rows,
                  eq_refl j.id,
                  eq_refl t,
                  eq_iff j.id k.id,
                  eq_iff k.id j.id,
                ))
            | inr differ ↦ absurd (
                ground (
                  arith,
                  find-count (for_target t) (matches k.id t) k rest e,
                  passes,
                  own,
                  s.backed k.id t,
                  s.one_active t,
                  active_on-two j.id k.id t rows (λ q. absurd (ground (arith, eq_iff j.id k.id))),
                  eq_refl j.id,
                  eq_refl k.id,
                  eq_refl t,
                ))
          ]
    ]
