-- ===== src/Docker.antt =====
-- internal/repository/docker/container_runtime.go: the adapter between the worker and the Docker SDK.
-- The SDK and the operating system are parameters over a state of their own.
pub mod Contract
pub mod Cleanup
pub mod Rows
pub mod Kept
pub mod Jobs
pub mod Tracked
use Prim.Native.String.{◌++◌}
use go_container_manager.Prelude.{
  ℕ, String, Bool, true, false, Option, none, some, List, [], ◌∷◌, if◌then◌else◌,
}
use go_container_manager.Errors.{Error, wrapped}
use go_container_manager.Exec.{Result, ok, err, Exec, pure, raise, lift, attempt, ◌>>=◌, ◌>>◌}
use go_container_manager.Domain.{Container, second}
use go_container_manager.FilePath.{is_rooted, clean, join}
use go_container_manager.Worker.{Runtime}

-- Which of its three channels the `select` of WaitExit reads.
pub data Waited : Type 0 where
  status_came error_came context_done : Waited

-- The calls of client.Client.
pub record Client (S : Type 0) : Type 0 where
  -- ContainerCreate: the image, the command, the binds and the name
  pub container_create : String → List String → List String → String → Exec S String
  pub container_start : String → Exec S (Unit {0})
  -- ContainerStop with its timeout in seconds
  pub container_stop : String → ℕ → Exec S (Unit {0})
  -- ContainerRemove with `Force`
  pub container_remove : String → Bool → Exec S (Unit {0})
  -- ContainerInspect: the status, if there is a state
  pub container_inspect : String → Exec S (Option String)
  pub container_wait : String → ℕ → S → Waited × S

-- The operating system, and the tests of errdefs.
pub record Os (S : Type 0) : Type 0 where
  pub getwd : S → Result String
  pub mkdir_all : String → Exec S (Unit {0})
  pub is_not_found : Error → Bool
  pub is_not_modified : Error → Bool

abbrev pub stop_timeout : ℕ
stop_timeout = 1

-- A container without a state is in the state "unknown".
abbrev pub state_or_unknown : Option String → String
state_or_unknown none = "unknown"
state_or_unknown (some status) = status

abbrev pub has_exited : Waited → Bool
has_exited status_came = true
has_exited error_came = false
has_exited context_done = false

abbrev pub joined : String → Result String → Result String
joined path (ok wd) = ok (join wd path)
joined path (err e) = err e

module _ {S : Type 0} where
  -- filepath.Abs
  unfoldable pub abs : Os S → String → Exec S String
  unfolding clean join
  abs os path s = (if is_rooted path then ok (clean path) else joined path (os.getwd s), s)

  -- What was created is removed again if it does not start.
  abbrev pub or_removed : Client S → String → Result (Unit {0}) → Exec S String
  or_removed cli id (ok _) = pure id
  or_removed cli id (err e) = attempt (cli.container_remove id true) >> raise e

  unfoldable pub create_and_start : Client S → Os S → Container → String → String → Exec S String
  unfolding abs
  create_and_start cli os c image host_mount_path = do
    abs_mount ← abs os host_mount_path
    id ←
        cli.container_create image c.command ((abs_mount ++ ":" ++ c.mount_path) ∷ [])
          ("aidms-" ++ c.id)
    started ← attempt (cli.container_start id)
    or_removed cli id started

  unfoldable pub inspect_state : Client S → String → Exec S String
  inspect_state cli id = do state ← cli.container_inspect id; pure (state_or_unknown state)

  unfoldable pub wait_exit : Client S → String → ℕ → S → Bool × S
  wait_exit cli id timeout s =
      let (waited, s') = cli.container_wait id timeout s in (has_exited waited, s')

  -- The adapter as the worker uses it.
  unfoldable pub runtime : Client S → Os S → Runtime S
  unfolding create_and_start inspect_state wait_exit
  runtime cli os = record {
    create_and_start = create_and_start cli os;
    start = cli.container_start;
    stop = λ id. cli.container_stop id stop_timeout;
    remove = λ id. cli.container_remove id true;
    inspect_state = inspect_state cli;
    wait_exit = wait_exit cli;
    mkdir_all = os.mkdir_all;
    is_not_found = os.is_not_found;
    is_not_modified = os.is_not_modified;
  }

  -- NewContainerRuntime, after client.NewClientWithOpts
  unfoldable pub new_container_runtime : Os S → Result (Client S) → Result (Runtime S)
  unfolding runtime
  new_container_runtime os (ok cli) = ok (runtime cli os)
  new_container_runtime os (err e) = err (wrapped "docker client" e)
