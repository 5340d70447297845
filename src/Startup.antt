-- ===== src/Startup.antt =====
-- app/handler.go: what NewHandler reads of the environment, and the server that it starts. The
-- environment, the migrations, the connection and the Docker client are inputs.
pub mod Ready
pub mod Migrations
use go_container_manager.Prelude.{
  ℕ, ◌-◌, ◌^◌, String, Bool, true, false, ◌&&◌, Option, none, some, List, [], ◌∷◌, ◌==◌, eqb, leb,
  ltb, if◌then◌else◌,
}
use Prim.Native.Char.{code}
use go_container_manager.Errors.{Error, wrapped}
use go_container_manager.Exec.{Result, ok, err}
use go_container_manager.Db.{Db}
use go_container_manager.Repo.Paging.{word}
use go_container_manager.Service.Containers
use go_container_manager.Service.Files.{FileSystem}
use go_container_manager.Worker
use go_container_manager.Worker.{Runtime, new_worker}
use go_container_manager.Docker.{Client, Os, new_container_runtime}
use go_container_manager.Auth.{Jwt}
use go_container_manager.Http.{digits, unsigned}
use go_container_manager.Http.Handlers.{Setup}
use go_container_manager.System.{System, recovered}
use go_container_manager.System.Exclusion.{booting}

abbrev pub default_jwt_secret : String
default_jwt_secret = "test-secret-key-at-least-32-characters-long"

abbrev pub default_storage_root : String
default_storage_root = "/tmp/aidms-storage"

abbrev pub default_worker_pool_size : ℕ
default_worker_pool_size = 4

abbrev pub or_default : String → String → String
or_default default value = if value == "" then default else value

abbrev pub positive : Option ℕ → Option ℕ
positive none = none
positive (some n) = if leb (2 ^ 63) n then none else some n

abbrev pub negative : Option ℕ → Option ℕ
negative none = none
negative (some n) = if eqb n 0 then some 0 else if ltb (2 ^ 63) n then none else some (word - n)

-- parseInt, which is strconv.Atoi: no int is an error, of the syntax or the range. An int is its bit
-- pattern.
unfoldable pub parse_int : String → Option ℕ
unfolding digits
parse_int String.[] = none
parse_int (String.◌∷◌ c s) =
    if eqb (code c) b'-'
    then negative (unsigned s)
    else if eqb (code c) b'+'
    then positive (unsigned s)
    else positive (digits 0 (String.◌∷◌ c s))

-- parsed > 0
abbrev pub is_positive : ℕ → Bool
is_positive n = leb 1 n && ltb n (2 ^ 63)

abbrev pub parsed_or_default : Option ℕ → ℕ
parsed_or_default none = default_worker_pool_size
parsed_or_default (some n) = if is_positive n then n else default_worker_pool_size

unfoldable pub worker_pool_size : String → ℕ
unfolding parse_int
worker_pool_size n = if n == "" then default_worker_pool_size else parsed_or_default (parse_int n)

-- What is read with os.Getenv; a variable that is not set reads as "".
pub record Settings : Type 0 where
  pub database_url : String
  pub jwt_secret : String
  pub storage_root : String
  pub storage_host_path : String
  pub pool_size : ℕ

unfoldable pub settings : (String → String) → Settings
unfolding worker_pool_size
settings getenv = record {
  database_url = getenv "DATABASE_URL";
  jwt_secret = or_default default_jwt_secret (getenv "JWT_SECRET");
  storage_root = or_default default_storage_root (getenv "STORAGE_ROOT");
  storage_host_path = getenv "STORAGE_HOST_PATH";
  pool_size = worker_pool_size (getenv "WORKER_POOL_SIZE");
}

abbrev pub env_map : List (String × String)
env_map = ("python-3.10", "python:3.10-slim") ∷ ("ubuntu-base", "ubuntu:22.04") ∷ []

abbrev pub environments : List String
environments = "python-3.10" ∷ "ubuntu-base" ∷ []

-- The libraries that the server is built on.
pub record Libraries (S : Type 0) : Type 0 where
  pub os : Os S
  pub file_system : FileSystem S
  pub jwt : Jwt
  pub matches : String → String → Bool

-- How the calls of a start went: those of runMigrations (sql.Open, postgres.WithInstance,
-- migrate.NewWithDatabaseInstance and Up), pgxpool.New and client.NewClientWithOpts. `is_no_change` is the
-- comparison with migrate.ErrNoChange.
pub record Opened (S : Type 0) : Type 0 where
  pub sql_opened : Result (Unit {0})
  pub driver : Result (Unit {0})
  pub migrator : Result (Unit {0})
  pub up : Result (Unit {0})
  pub is_no_change : Error → Bool
  pub connected : Result (Unit {0})
  pub client : Result (Client S)

abbrev pub or_wrapped : String → Result (Unit {0}) → Result (Unit {0}) → Result (Unit {0})
or_wrapped text (ok _) next = next
or_wrapped text (err e) next = err (wrapped text e)

-- A database that is up to date is no error.
abbrev pub brought_up : (Error → Bool) → Result (Unit {0}) → Result (Unit {0})
brought_up is_no_change (ok v) = ok v
brought_up is_no_change (err e) = if is_no_change e then ok tt else err (wrapped "migrate up" e)

unfoldable pub run_migrations : {S : Type 0} → Opened S → Result (Unit {0})
run_migrations o = or_wrapped "open db" o.sql_opened (
    or_wrapped "postgres driver" o.driver
      (or_wrapped "migrate" o.migrator (brought_up o.is_no_change o.up)))

-- The server: what its services and its workers are given, and the state in which it starts.
pub record App (S : Type 0) : Type 0 where
  pub setup : Setup S
  pub runtime : Runtime S
  pub config : Worker.Config
  pub pool_size : ℕ
  pub system : System S

pub data Boot (S : Type 0) : Type 0 where
  exits : ℕ → Boot S
  serves : App S → Boot S

module _ {S : Type 0} where
  unfoldable pub app : Libraries S → Settings → Runtime S → Db → S → App S
  unfolding new_worker
  app libs cfg rt db outside =
      let service : Containers.Config = record { tx_manager = true; env_map = env_map } in
      let config = new_worker env_map cfg.storage_root cfg.storage_host_path in
      record {
        setup = record {
          service = service;
          file_system = libs.file_system;
          storage_root = cfg.storage_root;
          jwt = libs.jwt;
          jwt_secret = cfg.jwt_secret;
          matches = libs.matches;
          environments = environments;
        };
        runtime = rt;
        config = config;
        pool_size = cfg.pool_size;
        system = recovered rt service config cfg.pool_size (booting db outside);
      }

  -- `if err != nil { os.Exit(1) }`
  abbrev pub or_exit : {A : Type 0} → Result A → (A → Boot S) → Boot S
  or_exit (ok a) f = f a
  or_exit (err e) f = exits 1

  unfoldable pub new_handler : Libraries S → (String → String) → Opened S → Db → S → Boot S
  unfolding settings new_container_runtime app run_migrations
  new_handler libs getenv opened db outside =
      let cfg = settings getenv in
      if cfg.database_url == ""
      then exits 1
      else or_exit (run_migrations opened) λ _. or_exit opened.connected λ _.
        or_exit (new_container_runtime libs.os opened.client)
          λ rt. serves (app libs cfg rt db outside)
