-- ===== src/System/Attended.antt =====
-- The rows that are RUNNING, and the workers that have their jobs.
pub mod Rows
pub mod Working
pub mod Kept
pub mod Stopped
use go_container_manager.Prelude.{ℕ, ◌≤◌, String, count}
use go_container_manager.Worker.Kept.{IsWorking}
use go_container_manager.System.{System}
use go_container_manager.System.Counting.{matches}
use go_container_manager.System.Guarded.{running_as, busy}

pub record IsAttended {S : Type 0} (s : System S) : Type 0 where
  pub working : IsWorking s.db
  pub attended :
      (id target : String)
      → count (running_as id target) s.db.jobs ≤ count (matches id target) (busy s.workers)
