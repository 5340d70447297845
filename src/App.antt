-- ===== src/App.antt =====
-- app/handler.go: what NewHandler does before it accepts requests.
pub mod Recovery
use go_container_manager.Prelude.{String, List, [], ◌∷◌, ◌++◌, length, leb, if◌then◌else◌}
use go_container_manager.Exec.{Result, ok, err}
use go_container_manager.Domain.{Job}
use go_container_manager.Db.{Db}
use go_container_manager.Repo.Jobs
use go_container_manager.Service.Containers.{queue_capacity}

-- The loop `enqueueLoop`: it stops at the first job for which the channel has no room.
unfoldable pub enqueue : List Job → List Job → List Job
enqueue queue [] = queue
enqueue queue (j ∷ js) =
    let rest = enqueue (queue ++ j ∷ []) js in
    if leb queue_capacity (length queue) then queue else rest

-- `pendingJobs, _ := …`: an error leaves no job to enqueue.
abbrev pub or_no_jobs : Result (List Job) → List Job
or_no_jobs (ok js) = js
or_no_jobs (err _) = []

abbrev pub interrupted_text : String
interrupted_text = "System interrupted"

-- Stuck jobs are marked as failed, then the pending ones go back into the new channel. Errors of the
-- database are ignored.
unfoldable pub recover : Db → Db × List Job
unfolding enqueue
recover db =
    let marked = (Jobs.mark_running_as_failed interrupted_text db).1 in
    let (r, read) = Jobs.find_pending_jobs marked in (read, enqueue [] (or_no_jobs r))
