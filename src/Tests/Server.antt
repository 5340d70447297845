-- ===== src/Tests/Server.antt =====
-- A run of the server: two requests for two containers, and what is on its way then.
use go_container_manager.Prelude.{
  ℕ, String, ◌≢◌, ◌≡◌, true, refl, some, ◌∷◌, [], arith, find, count, eq_iff,
}
use go_container_manager.Exec.{ok}
use go_container_manager.Domain.{
  Job, ContainerStatus, create_container, start_container, stop_container,
}
use go_container_manager.Db.{healthy, statement, with_tx}
use go_container_manager.Repo.Containers
use go_container_manager.Repo.Jobs
use go_container_manager.Service.Containers.{
  create_job, new_container, run_guarded, guard, start_guard, stop_guard, find_container_for_guard,
}
use go_container_manager.Service.Containers.Races.{create_race}
use go_container_manager.Service.Containers.Operations.{starts, stops, deletes}
use go_container_manager.Repo.Containers.{scan_container}
use go_container_manager.System.{
  System, Reach, played, here, next, request, send, receive, mark, admit, requested,
}
use go_container_manager.System.Statements.{
  Stage, Transaction, begin, find_and_lock, look, commit, at_once, further,
}
use go_container_manager.System.Statements.Atomic.{statements_refine}
use go_container_manager.System.Guarded.{fits}
use go_container_manager.System.Guarded.Reached.{works_guarded}
use go_container_manager.Worker.{marked, store_job}
use go_container_manager.System.Invariant.{Inv}
use go_container_manager.System.Exclusion.{booting, booting-Inv, Reach-Inv, exclusive}
use go_container_manager.System.Lifecycle.{shelf, Move}
use go_container_manager.System.Lifecycle.Refines.{refines}
use go_container_manager.System.Lifecycle.Dead.{always_dead}
use go_container_manager.System.Runs.{Only, IsInner}
use go_container_manager.System.Progress.Drain.{drains, Cleared}
use go_container_manager.Worker.Kept.{IsWorking}
use go_container_manager.Tests.Data.{resting, tables, service, inputs, second, docker, config}

abbrev pub start : System ℕ
start = booting (healthy tables) 0

pub start-Inv : Inv 4 start
unfolding count
start-Inv =
    booting-Inv 4 (healthy tables) 0 (record { no_tx = refl; not_aborted = refl })
      (λ target. omega arith) (λ id. omega arith)

abbrev pub one : System ℕ
one = requested docker service config 4 starts inputs "alice" "c1" start

abbrev two : System ℕ
two = requested docker service config 4 stops second "alice" "c2" one

run : Reach docker service config 4 start two
run = next (next here (request starts inputs "alice" "c1")) (request stops second "alice" "c2")

Reach-Inv_example : Inv 4 two
Reach-Inv_example = Reach-Inv docker service config 4 run start-Inv

exclusive_example : ◌≢◌ {A = String} "c2" "c1"
unfolding admit start_guard stop_guard run_guarded guard with_tx statement find count
    find_container_for_guard Containers.find_by_id_for_update Jobs.find_pending_or_running_by_target
    Jobs.save create_job
exclusive_example =
    exclusive docker service config 4 start two [] [] []
      (create_job second "alice" "c2" stop_container)
      (create_job inputs "alice" "c1" start_container) start-Inv run refl

refines_example : Move [] (shelf one.db) (shelf two.db)
refines_example =
    refines docker service config 4 one two
      (Reach-Inv docker service config 4 (next here (request starts inputs "alice" "c1")) start-Inv)
      (request stops second "alice" "c2")

two-IsWorking : IsWorking two.db
unfolding admit start_guard stop_guard run_guarded guard with_tx statement find count
    find_container_for_guard Containers.find_by_id_for_update Jobs.find_pending_or_running_by_target
    Jobs.save create_job
two-IsWorking = record { no_faults = refl; no_tx = refl; not_aborted = refl }

drains_example :
    (u : System ℕ) × (run : Reach docker service config 4 two u) × Only docker service config 4
      (IsInner docker service config 4)
      run
    × (played u ≡ [])
    × Cleared (played two) u.db.jobs
drains_example = drains docker service config 4 (omega arith) two Reach-Inv_example two-IsWorking

-- The start job of "c1" reaches a worker, which marks it.
abbrev pub waits : Job
waits = create_job inputs "alice" "c1" start_container

works_guarded_example : fits start_container (shelf one.db "c1") ≡ true
unfolding admit start_guard run_guarded guard with_tx statement find count shelf store_job
    find_container_for_guard Containers.find_by_id_for_update Jobs.find_pending_or_running_by_target
    Jobs.save create_job Jobs.update
works_guarded_example =
    works_guarded docker service config 4 (healthy tables) 0 _ [] [] (marked waits) start-Inv
      (record { no_faults = refl; no_tx = refl; not_aborted = refl }) refl
      (next
        (next
          (next (next here (request starts inputs "alice" "c1"))
            (send [] [] waits refl (omega arith)))
          (receive waits [] refl (omega arith)))
        (mark [] [] waits refl))
      refl

-- Two transactions for one container: the second waits for the lock that the first has.
abbrev first_tx : Transaction
first_tx = record {
  op = starts;
  inputs = inputs;
  user_id = "alice";
  container_id = "c1";
  stage = Stage.begun;
}

abbrev late_tx : Transaction
late_tx = record {
  op = deletes;
  inputs = second;
  user_id = "alice";
  container_id = "c1";
  stage = Stage.begun;
}

statements_refine_example : Reach docker service config 4 start one
unfolding admit start_guard run_guarded guard with_tx statement find count scan_container
    find_container_for_guard Containers.find_by_id_for_update Jobs.find_pending_or_running_by_target
    Jobs.save create_job
statements_refine_example =
    let shown = scan_container resting in
    statements_refine docker service config 4 start
      (record { system = one; open_txs = late_tx ∷ [] }) start-Inv
      (record { no_faults = refl; no_tx = refl; not_aborted = refl })
      (further
        (further
          (further
            (further (further at_once (begin starts inputs "alice" "c1"))
              (begin deletes second "alice" "c1"))
            (find_and_lock (late_tx ∷ []) [] first_tx shown refl refl refl refl))
          (look (late_tx ∷ []) [] first_tx shown refl refl refl))
        (commit (late_tx ∷ []) [] first_tx shown refl refl))

-- A database that was left with a dead container.
abbrev wrecked : System ℕ
wrecked =
    booting
      (healthy
        (record tables { containers = record resting { status = ContainerStatus.dead } ∷ [] }))
      0

wrecked-Inv : Inv 4 wrecked
unfolding count
wrecked-Inv =
    booting-Inv 4 wrecked.db 0 (record { no_tx = refl; not_aborted = refl }) (λ target. omega arith)
      (λ id. omega arith)

abbrev retried : System ℕ
retried = requested docker service config 4 starts inputs "alice" "c1" wrecked

always_dead_example : shelf wrecked.db "c1" ≡ some ContainerStatus.dead
unfolding shelf find admit start_guard run_guarded guard with_tx statement count
    find_container_for_guard Containers.find_by_id_for_update Jobs.find_pending_or_running_by_target
    Jobs.save
always_dead_example =
    always_dead docker service config 4 wrecked retried "c1" wrecked-Inv
      (next here (request starts inputs "alice" "c1")) refl

distinct : ◌≢◌ {A = String} "j1" "j2"
distinct e = ground (arith, eq_iff "j1" "j2")

-- The user sees the new container "c9" and starts it before Create stores its job.
create_race_example :
    let first = create_job inputs "alice" "c9" create_container in
    let other = create_job second "alice" "c9" start_container in
    let (stored, d₁) =
      Containers.save (new_container inputs "alice" "cache" "ubuntu-base" []) (healthy tables) in
    let (started, d₂) = run_guarded true (start_guard true "alice" "c9" other) d₁ in
    let (created, d₃) = Jobs.save first d₂ in
    (stored ≡ ok tt)
    × (started ≡ ok tt)
    × (created ≡ ok tt)
    × (count (Jobs.active_on "c9") d₃.jobs ≡ 2)
unfolding count
create_race_example =
    create_race true inputs second "alice" "cache" "ubuntu-base" [] tables refl refl refl refl refl
      distinct
