-- ===== src/Service/Containers/Operations.antt =====
-- Start, Stop and Delete as the three operations of one kind, for what is said of all of them.
use go_container_manager.Prelude.{String, Bool}
use go_container_manager.Exec.{Exec}
use go_container_manager.Domain.{
  ContainerStatus, Job, JobType, start_container, stop_container, delete_container, is_running,
}
use go_container_manager.Service.Containers.{
  Config, Inputs, Server, start, stop, delete, not_running,
}

pub data Operation : Type 0 where
  starts stops deletes : Operation

abbrev pub job_type : Operation → JobType
job_type starts = start_container
job_type stops = stop_container
job_type deletes = delete_container

-- The statuses that the guard refuses.
abbrev pub refuses : Operation → ContainerStatus → Bool
refuses starts = is_running
refuses stops = not_running
refuses deletes = is_running

abbrev pub perform : Operation → Config → Inputs → String → String → Exec Server Job
perform starts = start
perform stops = stop
perform deletes = delete
