-- ===== src/Domain.antt =====
-- internal/domain: the entities. A time is a count of nanoseconds from an origin before every time
-- that the program meets, so that times are natural numbers.
use go_container_manager.Prelude.{ℕ, ◌*◌, String, Bool, true, false, Option, List}

-- container.go, the status constants
pub data ContainerStatus : Type 0 where
  created running exited dead : ContainerStatus

pub record Container : Type 0 where
  pub id : String
  pub user_id : String
  pub name : String
  pub environment : String
  pub command : List String
  pub status : ContainerStatus
  pub mount_path : String
  pub docker_container_id : String
  pub created_at : ℕ
  pub updated_at : ℕ

-- job.go, the type constants; a row may hold another text
pub data JobType : Type 0 where
  create_container start_container stop_container delete_container : JobType
  other_type : String → JobType

pub data JobStatus : Type 0 where
  pending running success failed : JobStatus

pub record Job : Type 0 where
  pub id : String
  pub user_id : String
  pub target_resource_id : String
  pub type : JobType
  pub status : JobStatus
  pub error_message : Option String
  pub created_at : ℕ
  pub completed_at : Option ℕ

abbrev pub second : ℕ
second = 1000000000

-- 7 * 24 * time.Hour
abbrev pub job_retention : ℕ
job_retention = 7 * 24 * 3600 * second

-- file.go
pub record File : Type 0 where
  pub id : String
  pub user_id : String
  pub original_filename : String
  pub storage_path : String
  pub mime_type : String
  pub size_bytes : ℕ
  pub created_at : ℕ

-- user.go
pub record User : Type 0 where
  pub id : String
  pub username : String
  pub password_hash : String
  pub created_at : ℕ

-- status == "Running"
abbrev pub is_running : ContainerStatus → Bool
is_running ContainerStatus.running = true
is_running _ = false

-- status IN ('PENDING', 'RUNNING')
abbrev pub is_active : JobStatus → Bool
is_active pending = true
is_active JobStatus.running = true
is_active _ = false

abbrev pub is_pending : JobStatus → Bool
is_pending pending = true
is_pending _ = false

abbrev pub is_running_job : JobStatus → Bool
is_running_job JobStatus.running = true
is_running_job _ = false

-- status IN ('SUCCESS', 'FAILED')
abbrev pub is_finished : JobStatus → Bool
is_finished success = true
is_finished failed = true
is_finished _ = false
