-- ===== src/Tests/Adapter.antt =====
-- Witnesses for the Docker adapter, with a Docker that has room for two containers.
use go_container_manager.Prelude.{
  String, Bool, true, false, ◌&&◌, ◌||◌, ◌≡◌, ◌==◌, eq_iff, refl, none, some, [], ◌∷◌, arith,
  if◌then◌else◌, find, count,
}
use go_container_manager.Errors.{Error, plain}
use go_container_manager.Exec.{Result, ok, err}
use go_container_manager.Domain.{Job, ContainerStatus, create_container}
use go_container_manager.Db.{ContainerRow, Tables, healthy}
use go_container_manager.Repo.Containers.Rows.{IsKeyed}
use go_container_manager.Worker.{run_job}
use go_container_manager.Docker.{Client, Os, status_came, create_and_start, runtime}
use go_container_manager.Docker.Contract.{IsDocker}
use go_container_manager.Docker.Cleanup.{Outcome, create_and_start_cases}
use go_container_manager.Docker.Kept.{IsTracked}
use go_container_manager.Docker.Tracked.{run_job-IsTracked}
use go_container_manager.Tests.Data.{resting, job, config, clock}
use go_container_manager.Repo.Containers.{has_id, scan_container}

pub record Room : Type 0 where
  pub first : Bool
  pub last : Bool

abbrev has : Room → String → Bool
has s d = (s.first && d == "d1") || (s.last && d == "d9")

abbrev missing : Error
missing = plain "No such container"

abbrev create : Room → Result String × Room
create s = if s.last then (err (plain "Conflict"), s) else (ok "d9", record s { last = true })

abbrev remove : String → Room → Result (Unit {0}) × Room
remove id s =
    if has s id
    then (ok tt, if id == "d1" then record s { first = false } else record s { last = false })
    else (err missing, s)

-- A container starts, or none does.
abbrev pub little : Bool → Client Room
little starts = record {
  container_create = λ image command binds name s. create s;
  container_start = λ id s. (if starts then ok tt else err (plain "no such image"), s);
  container_stop = λ id timeout s. (ok tt, s);
  container_remove = λ id force s. remove id s;
  container_inspect = λ id s. (ok (some "exited"), s);
  container_wait = λ id timeout s. (status_came, s);
}

abbrev pub os : Os Room
os = record {
  getwd = λ s. ok "/srv";
  mkdir_all = λ path s. (ok tt, s);
  is_not_found = λ e. true;
  is_not_modified = λ e. false;
}

apart : (d : String) → d == "d1" ≡ true → d == "d9" ≡ false
apart d h = ground (arith, eq_iff d "d1", eq_iff d "d9", eq_iff "d1" "d9")

created_id : (s : Room) (id : String) → (create s).0 ≡ ok id → (s.last ≡ false) × (id ≡ "d9")
created_id s id e = ground arith

little-IsDocker : (starts : Bool) → IsDocker (little starts) os has
little-IsDocker starts = record {
  named = λ s. ground arith;
  created = λ image command binds name id s e.
      let (free, same) = created_id s id e in
      (
        rw (same, free) (ground (arith, eq_iff "d9" "d1")),
        λ d. rw (same, free) (ground (arith, eq_iff d "d9", eq_iff d "d1", apart d)),
      );
  not_created = λ image command binds name s e d. ground arith;
  removed = λ id s e d. ground (
    arith,
    eq_iff d id,
    eq_iff id d,
    apart d,
    apart id,
    eq_iff d "d1",
    eq_iff d "d9",
    eq_iff id "d1",
    eq_iff id "d9",
  );
  not_removed = λ id s e d. ground arith;
  unknown = λ id s x e f. ground arith;
  started = λ id s d. refl;
  stopped = λ id timeout s d. refl;
  inspected = λ id s d. refl;
  waited = λ id timeout s d. refl;
  made = λ path s d. refl;
}

abbrev pub room : Room
room = record { first = false; last = false }

create_and_start_cases_example :
    let (r, after) =
      create_and_start (little false) os (scan_container resting) "ubuntu:22.04" "data" room in
    Outcome (little false) has room r after
create_and_start_cases_example =
    create_and_start_cases (little false) os has (little-IsDocker false) (scan_container resting)
      "ubuntu:22.04" "data" room

-- A container whose create job waits.
abbrev new : ContainerRow
new = record resting { status = ContainerStatus.created; docker_container_id = none }

abbrev one : Tables
one = record { containers = new ∷ []; jobs = []; files = []; users = [] }

one-IsKeyed : IsKeyed one.containers
unfolding count
one-IsKeyed = record { one_id = λ id. ground arith; one_name = λ u n. ground arith }

abbrev first_job : Job
first_job = record job { type = create_container }

only_new :
    (r : ContainerRow)
    → find (has_id "c1") one.containers ≡ some r
    → first_job.type ≡ create_container
    → r.docker_container_id ≡ none
unfolding find
only_new r e h = ground arith

run_job-IsTracked_example :
    IsTracked has
      (run_job
        (runtime (little true) os)
        config
        clock
        create_container
        first_job
        (record { db = healthy one; outside = room })).1
run_job-IsTracked_example =
    run_job-IsTracked (little true) os has (little-IsDocker true) (λ d s h. ground arith) config
      clock first_job one room one-IsKeyed only_new (λ d h. ground arith)
