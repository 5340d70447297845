-- ===== src/App/Recovery.antt =====
-- What a start finds in the database, and what it makes of it.
use mathlib.Core.Path.{sym, ap}
use mathlib.Core.List.{append-nil, append_assoc}
use go_container_manager.Prelude.{
  ℕ, zero, suc, ◌+◌, String, ◌≡◌, ◌∙◌, refl, List, [], ◌∷◌, ◌++◌, arith, count, select,
  update_where, sort_asc, take, length, length-append,
}
use go_container_manager.Domain.{Job, is_pending, is_running_job}
use go_container_manager.Db.{Tables, healthy, statement}
use go_container_manager.Repo.Jobs
use go_container_manager.Repo.Jobs.{interrupt}
use go_container_manager.Service.Containers.{queue_capacity}
use go_container_manager.App.{recover, enqueue, interrupted_text}

enqueue-take :
    (k : ℕ) (queue js : List Job)
    → length queue + k ≡ queue_capacity
    → enqueue queue js ≡ queue ++ take k js
unfolding enqueue
enqueue-take zero queue [] h = sym (append-nil queue)
enqueue-take (suc k) queue [] h = sym (append-nil queue)
enqueue-take zero queue (j ∷ js) h = rw append-nil (ground arith)
enqueue-take (suc k) queue (j ∷ js) h =
    let ih : enqueue (queue ++ j ∷ []) js ≡ (queue ++ j ∷ []) ++ take k js =
      enqueue-take k (queue ++ j ∷ []) js (omega (arith, length-append queue (j ∷ []))) in
    ground (arith, ih, append_assoc queue (j ∷ []) (take k js))

pending-interrupt :
    (msg : String) (rows : List Job)
    → select
        (λ j. is_pending j.status)
        (update_where (λ j. is_running_job j.status) (interrupt msg) rows)
      ≡ select (λ j. is_pending j.status) rows
unfolding select update_where interrupt
pending-interrupt msg [] = refl
pending-interrupt msg (r ∷ rows) = ground (arith, pending-interrupt msg rows)

running-interrupt :
    (msg : String) (rows : List Job)
    → count
        (λ j. is_running_job j.status)
        (update_where (λ j. is_running_job j.status) (interrupt msg) rows)
      ≡ 0
unfolding count update_where interrupt
running-interrupt msg [] = refl
running-interrupt msg (r ∷ rows) = ground (arith, running-interrupt msg rows)

-- The pending jobs of the table, the oldest first.
abbrev pub pending_jobs : Tables → List Job
pending_jobs t = sort_asc (λ j. j.created_at) (select (λ j. is_pending j.status) t.jobs)

-- On a database in which no statement fails, a start of the server leaves no job RUNNING, keeps
-- the pending jobs, and fills the new channel with the oldest of them, in order, up to its
-- capacity.
pub recover_lem :
    (t : Tables)
    → let (db, queue) = recover (healthy t) in
      (count (λ j. is_running_job j.status) db.jobs ≡ 0)
      × (pending_jobs db.tables ≡ pending_jobs t)
      × (queue ≡ take queue_capacity (pending_jobs t))
unfolding recover Jobs.mark_running_as_failed Jobs.find_pending_jobs statement
recover_lem t = (
  running-interrupt interrupted_text t.jobs,
  ap (sort_asc (λ j. j.created_at)) (pending-interrupt interrupted_text t.jobs),
  enqueue-take 100 [] _ refl
      ∙ ap (λ js. take queue_capacity (sort_asc (λ j. j.created_at) js))
          (pending-interrupt interrupted_text t.jobs),
)
