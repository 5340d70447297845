-- ===== src/System/Guarded.antt =====
-- The condition that the guard of a start, stop or delete checked of its container, from the request to
-- the work.
pub mod Counts
pub mod Alone
pub mod Calls
pub mod Requests
pub mod Passing
pub mod Marking
pub mod Worked
pub mod Reached
use go_container_manager.Prelude.{
  ℕ, ◌≤◌, String, Bool, true, false, not, ◌&&◌, ◌≡◌, Option, none, some, List, [], ◌∷◌, ◌++◌, map,
  count,
}
use go_container_manager.Domain.{
  ContainerStatus, Job, JobType, start_container, stop_container, delete_container, is_pending,
  is_running, is_running_job,
}
use go_container_manager.Worker.Kept.{IsWorking}
use go_container_manager.System.{System, Stage, Task, received, ready, worked}
use go_container_manager.System.Counting.{matches}
use go_container_manager.System.Lifecycle.{shelf}

-- Whether a container in this state is what the guard of this type of job asks for. Create has none.
abbrev pub fits : JobType → Option ContainerStatus → Bool
fits start_container (some status) = not (is_running status)
fits stop_container (some status) = is_running status
fits delete_container (some status) = not (is_running status)
fits start_container none = false
fits stop_container none = false
fits delete_container none = false
fits _ _ = true

abbrev pub misfit : (String → Option ContainerStatus) → Job → Bool
misfit f j = not (fits j.type (f j.target_resource_id))

abbrev pub pending_misfit : (String → Option ContainerStatus) → Job → Bool
pending_misfit f j = is_pending j.status && misfit f j

abbrev pub running_as : String → String → Job → Bool
running_as id target j = matches id target j && is_running_job j.status

-- The jobs that workers hold: those that are still to be worked on, and those marked as running.
abbrev pub held_at : Stage → Job → List Job
held_at received j = j ∷ []
held_at ready j = j ∷ []
held_at (worked _) j = []

abbrev pub busy_at : Stage → Job → List Job
busy_at received j = []
busy_at ready j = j ∷ []
busy_at (worked _) j = j ∷ []

unfoldable pub held : List Task → List Job
held [] = []
held (t ∷ ts) = held_at t.stage t.job ++ held ts

unfoldable pub busy : List Task → List Job
busy [] = []
busy (t ∷ ts) = busy_at t.stage t.job ++ busy ts

-- The jobs that are still to be worked on.
abbrev pub waiting : {S : Type 0} → System S → List Job
waiting s = held s.workers ++ s.queue ++ s.senders

-- Every job that is still to be worked on, and every pending row, fits its container; a job that is
-- marked has a running row.
pub record IsFit (f : String → Option ContainerStatus) (rows still marked : List Job) : Type 0 where
  pub jobs_fit : count (misfit f) still ≡ 0
  pub rows_fit : count (pending_misfit f) rows ≡ 0
  pub backed :
      (id target : String) → count (matches id target) marked ≤ count (running_as id target) rows

pub record IsGuarded {S : Type 0} (s : System S) : Type 0 where
  pub working : IsWorking s.db
  pub fit : IsFit (shelf s.db) s.db.jobs (waiting s) (busy s.workers)
