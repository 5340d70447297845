-- ===== src/Tests/Data.antt =====
-- Two containers of one user, a request, and a Docker that always agrees.
use go_container_manager.Prelude.{ℕ, suc, true, false, none, some, [], ◌∷◌, arith, eq_iff, count}
use go_container_manager.Exec.{ok}
use go_container_manager.Domain.{Job, ContainerStatus, pending, start_container}
use go_container_manager.Db.{ContainerRow, Tables, healthy}
use go_container_manager.Repo.Containers.Rows.{IsKeyed}
use go_container_manager.Service.Containers
use go_container_manager.Service.Containers.{Inputs, Server}
use go_container_manager.Worker
use go_container_manager.Worker.{Runtime, Clock}

-- The first has exited, the second runs.
abbrev pub resting : ContainerRow
resting = record {
  id = "c1";
  user_id = "alice";
  name = "web";
  environment = "ubuntu-base";
  command = "sleep" ∷ "9" ∷ [];
  status = ContainerStatus.exited;
  mount_path = "/workspace";
  docker_container_id = some "d1";
  created_at = 1;
  updated_at = 2;
}

abbrev pub busy : ContainerRow
busy = record {
  id = "c2";
  user_id = "alice";
  name = "db";
  environment = "ubuntu-base";
  command = "sleep" ∷ "9" ∷ [];
  status = ContainerStatus.running;
  mount_path = "/workspace";
  docker_container_id = some "d2";
  created_at = 3;
  updated_at = 4;
}

abbrev pub tables : Tables
tables = record { containers = resting ∷ busy ∷ []; jobs = []; files = []; users = [] }

abbrev pub service : Containers.Config
service = record { tx_manager = true; env_map = ("ubuntu-base", "ubuntu:22.04") ∷ [] }

abbrev pub inputs : Inputs
inputs = record { container_id = "c9"; job_id = "j1"; now = 100; expired = false }

abbrev pub late : Inputs
late = record { container_id = "c9"; job_id = "j1"; now = 100; expired = true }

abbrev pub second : Inputs
second = record { container_id = "c8"; job_id = "j2"; now = 200; expired = false }

abbrev pub server : Server
server = record { db = healthy tables; queue = [] }

abbrev pub job : Job
job = record {
  id = "j1";
  user_id = "alice";
  target_resource_id = "c1";
  type = start_container;
  status = pending;
  error_message = none;
  created_at = 100;
  completed_at = none;
}

-- It counts its calls.
abbrev pub docker : Runtime ℕ
docker = record {
  create_and_start = λ c image mount s. (ok "d9", suc s);
  start = λ id s. (ok tt, suc s);
  stop = λ id s. (ok tt, suc s);
  remove = λ id s. (ok tt, suc s);
  inspect_state = λ id s. (ok "running", suc s);
  wait_exit = λ id limit s. (false, suc s);
  mkdir_all = λ path s. (ok tt, suc s);
  is_not_found = λ e. false;
  is_not_modified = λ e. false;
}

abbrev pub config : Worker.Config
config = record {
  env_map = ("ubuntu-base", "ubuntu:22.04") ∷ [];
  storage_root = "/data";
  storage_host_path = "/data";
}

abbrev pub clock : Clock
clock = record { updated = 300; completed = 400 }

pub tables-IsKeyed : IsKeyed tables.containers
unfolding count
tables-IsKeyed = record {
  one_id = λ id. ground (arith, eq_iff "c1" id, eq_iff "c2" id, eq_iff "c1" "c2");
  one_name = λ u n. ground (arith, eq_iff "web" n, eq_iff "db" n, eq_iff "web" "db");
}
