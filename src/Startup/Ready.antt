-- ===== src/Startup/Ready.antt =====
-- What NewHandler has set up when it returns.
use go_container_manager.Prelude.{
  ◌^◌, ◌≤◌, ◌<◌, String, Bool, true, false, not, ◌&&◌, ◌||◌, ◌≡◌, ◌≢◌, ◌⊎◌, refl, inl, inr, some,
  ◌==◌, eq_iff, arith, count, All, Bool-cases, if◌then◌else◌,
}
use go_container_manager.Errors.{Error}
use go_container_manager.Exec.{Result, ok, err, is_ok, Result-cases}
use go_container_manager.Db.{Db}
use go_container_manager.Repo.Jobs.{has_id, active_on}
use go_container_manager.Service.Containers.{lookup}
use go_container_manager.Service.Containers.Faults.{IsIdle}
use go_container_manager.Worker.{Runtime, new_worker}
use go_container_manager.Docker.{new_container_runtime, runtime}
use go_container_manager.System.Invariant.{Inv}
use go_container_manager.System.Working.{restart-Inv}
use go_container_manager.System.Exclusion.{booting, booting-Inv}
use go_container_manager.Startup.{
  run_migrations, Libraries, Opened, App, exits, serves, app, settings, new_handler, env_map,
  or_default, default_jwt_secret, default_storage_root, worker_pool_size,
}

-- What the services, the router and the workers rely on.
pub record IsReady {S : Type 0} (getenv : String → String) (a : App S) : Type 0 where
  pub pool : 1 ≤ a.pool_size
  pub bounded : a.pool_size < 2 ^ 63
  pub inv : Inv a.pool_size a.system
  pub with_tx : a.setup.service.tx_manager ≡ true
  pub secret : a.setup.jwt_secret ≢ ""
  pub root : a.setup.storage_root ≢ ""
  pub host : a.config.storage_host_path ≢ ""
  pub secret_from : a.setup.jwt_secret ≡ (
      if getenv "JWT_SECRET" == ""
      then "test-secret-key-at-least-32-characters-long"
      else getenv "JWT_SECRET")
  pub root_from :
      a.setup.storage_root
      ≡ (if getenv "STORAGE_ROOT" == "" then "/tmp/aidms-storage" else getenv "STORAGE_ROOT")
  pub same_root : a.config.storage_root ≡ a.setup.storage_root
  pub host_from : a.config.storage_host_path ≡ (
      if getenv "STORAGE_HOST_PATH" == "" then a.setup.storage_root else getenv "STORAGE_HOST_PATH")
  pub images :
      All
        (λ e.
          (image : String) × (image ≢ "")
          × (lookup e a.config.env_map ≡ some image)
          × (lookup e a.setup.service.env_map ≡ some image))
        a.setup.environments

abbrev pub is_no_change_of : (Error → Bool) → Result (Unit {0}) → Bool
is_no_change_of is_no_change (ok _) = false
is_no_change_of is_no_change (err e) = is_no_change e

-- The calls of the migration, but for a database that is up to date.
abbrev pub migrates : {S : Type 0} → Opened S → Bool
migrates o =
    is_ok o.sql_opened
    && is_ok o.driver
    && is_ok o.migrator
    && (is_ok o.up || is_no_change_of o.is_no_change o.up)

abbrev pub can_start : {S : Type 0} → (String → String) → Opened S → Bool
can_start getenv o =
    not (getenv "DATABASE_URL" == "") && migrates o && is_ok o.connected && is_ok o.client

pool_size-bounds : (n : String) → (1 ≤ worker_pool_size n) × (worker_pool_size n < 2 ^ 63)
unfolding worker_pool_size
pool_size-bounds n = ground arith

or_default-nonempty : (default value : String) → default ≢ "" → or_default default value ≢ ""
or_default-nonempty default value n h = ground (arith, eq_iff value "", n)

nonempty_secret : default_jwt_secret ≢ ""
nonempty_secret h = ground (arith, eq_iff default_jwt_secret "")

nonempty_root : default_storage_root ≢ ""
nonempty_root h = ground (arith, eq_iff default_storage_root "")

module _ {S : Type 0} (libs : Libraries S) (getenv : String → String) (db : Db) (outside : S)
    (i : IsIdle db) (one_active : (target : String) → count (active_on target) db.jobs ≤ 1)
    (one_row : (id : String) → count (has_id id) db.jobs ≤ 1) where
  app-IsReady : (rt : Runtime S) → IsReady getenv (app libs (settings getenv) rt db outside)
  unfolding app settings new_worker lookup
  app-IsReady rt = record {
    pool = (pool_size-bounds (getenv "WORKER_POOL_SIZE")).0;
    bounded = (pool_size-bounds (getenv "WORKER_POOL_SIZE")).1;
    inv =
        let cfg = settings getenv in
        let config = new_worker env_map cfg.storage_root cfg.storage_host_path in
        restart-Inv rt (record { tx_manager = true; env_map = env_map }) config cfg.pool_size
          (booting db outside) (booting-Inv cfg.pool_size db outside i one_active one_row);
    with_tx = refl;
    secret = or_default-nonempty default_jwt_secret (getenv "JWT_SECRET") nonempty_secret;
    root = or_default-nonempty default_storage_root (getenv "STORAGE_ROOT") nonempty_root;
    host =
        or_default-nonempty (or_default default_storage_root (getenv "STORAGE_ROOT"))
          (getenv "STORAGE_HOST_PATH")
          (or_default-nonempty default_storage_root (getenv "STORAGE_ROOT") nonempty_root);
    secret_from = refl;
    root_from = refl;
    same_root = refl;
    host_from = refl;
    images = (
      ("python:3.10-slim", (λ e. ground (arith, eq_iff "python:3.10-slim" "")), refl, refl),
      (("ubuntu:22.04", (λ e. ground (arith, eq_iff "ubuntu:22.04" "")), refl, refl), tt),
    );
  }

  -- On an idle database with at most one active job for a container and one row for a job's id,
  -- NewHandler exits with 1 exactly when DATABASE_URL is empty or a call of the start fails;
  -- otherwise it gives a server whose state satisfies the invariant, with a pool of at least one
  -- and fewer than 2^63 workers, a transaction manager, a secret and storage paths that are not
  -- empty (those of JWT_SECRET, STORAGE_ROOT and STORAGE_HOST_PATH, where these are not set the
  -- test secret and the folder /tmp/aidms-storage of the source, and the storage root), and an
  -- image for every environment that it offers, in the service as in the workers.
  pub new_handler_lem :
      (opened : Opened S)
      → ((a : App S) × (can_start getenv opened ≡ true)
          × (new_handler libs getenv opened db outside ≡ serves a)
          × IsReady getenv a)
        ⊎ ((can_start getenv opened ≡ false)
            × (new_handler libs getenv opened db outside ≡ exits 1))
  unfolding new_handler settings new_container_runtime run_migrations
  new_handler_lem opened = elim (Result-cases opened.client) [
    | inl (cli, e) ↦
        let rt = runtime cli libs.os in
        let a = app libs (settings getenv) rt db outside in
        elim (Bool-cases (can_start getenv opened)) [
          | inl can ↦ inl (a, can, ground (arith, e), app-IsReady rt)
          | inr cannot ↦ inr (cannot, ground (arith, e))
        ]
    | inr (x, e) ↦ inr (ground (arith, e), ground (arith, e))
  ]
