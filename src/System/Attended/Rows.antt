-- ===== src/System/Attended/Rows.antt =====
-- The running rows, as the job table changes.
use go_container_manager.Prelude.{
  ◌≤◌, String, Bool, false, ◌≡◌, ◌∙◌, refl, inl, inr, List, [], ◌∷◌, eq_refl, arith, count, find,
  find-none_iff, find-passes, Option-cases, update_where,
}
use go_container_manager.Domain.{Job, is_running_job}
use go_container_manager.Db.{Db, statement}
use go_container_manager.Repo.Jobs
use go_container_manager.Repo.Jobs.{has_id, overwrite, interrupt}
use go_container_manager.Worker.Kept.{IsWorking}
use go_container_manager.App.{recover, interrupted_text}
use go_container_manager.System.Counting.{active_as}
use go_container_manager.System.Guarded.{running_as}
use go_container_manager.System.Guarded.Alone.{find-count}

pub running_as-active_as :
    (id target : String) (rows : List Job)
    → count (running_as id target) rows ≤ count (active_as id target) rows
unfolding count
running_as-active_as id target [] = omega arith
running_as-active_as id target (r ∷ rows) = ground (arith, running_as-active_as id target rows)

pub running_as-ended :
    (k : Job) (target : String) (rows : List Job)
    → is_running_job k.status ≡ false
    → count (running_as k.id target) (update_where (has_id k.id) (overwrite k) rows) ≡ 0
unfolding count update_where overwrite
running_as-ended k target [] h = refl
running_as-ended k target (r ∷ rows) h = ground (arith, running_as-ended k target rows h)

pub running_as-interrupt :
    (msg id target : String) (rows : List Job)
    → count
        (running_as id target)
        (update_where (λ j. is_running_job j.status) (interrupt msg) rows)
      ≡ 0
unfolding count update_where interrupt
running_as-interrupt msg id target [] = refl
running_as-interrupt msg id target (r ∷ rows) =
    ground (arith, running_as-interrupt msg id target rows)

pub recover-rows :
    (db : Db)
    → IsWorking db
    → (recover db).0.jobs
      ≡ update_where (λ j. is_running_job j.status) (interrupt interrupted_text) db.jobs
unfolding recover Jobs.mark_running_as_failed Jobs.find_pending_jobs statement
recover-rows db w = ground arith

update-idle :
    (p : Job → Bool) (f : Job → Job) (rows : List Job)
    → count p rows ≡ 0
    → update_where p f rows ≡ rows
unfolding count update_where
update-idle p f [] h = refl
update-idle p f (r ∷ rows) h = ground (arith, update-idle p f rows)

-- With no running row a start finds nothing to interrupt.
pub recover-idle :
    (db : Db)
    → IsWorking db
    → ((id target : String) → count (running_as id target) db.jobs ≡ 0)
    → (recover db).0.jobs ≡ db.jobs
recover-idle db w none_runs =
    let running : Job → Bool = λ j. is_running_job j.status in
    recover-rows db w
    ∙ update-idle running (interrupt interrupted_text) db.jobs
        (elim (Option-cases (find running db.jobs)) [
          | inl e ↦ (find-none_iff running db.jobs).0 e
          | inr (k, e) ↦ absurd (
              ground (
                arith,
                find-count running (running_as k.id k.target_resource_id) k db.jobs e,
                find-passes running db.jobs {x = k} e,
                none_runs k.id k.target_resource_id,
                eq_refl k.id,
                eq_refl k.target_resource_id,
              ))
        ])
