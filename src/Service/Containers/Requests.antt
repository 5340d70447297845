-- ===== src/Service/Containers/Requests.antt =====
-- Start, Stop and Delete as a client meets them, on a database in which no statement fails.
use go_container_manager.Prelude.{
  ◌<◌, String, true, false, ◌≡◌, ◌↔◌, List, [], ◌∷◌, ◌++◌, arith, length,
}
use go_container_manager.Exec.{ok, is_ok}
use go_container_manager.Domain.{Job, start_container, stop_container, delete_container, is_running}
use go_container_manager.Db.{Tables, healthy}
use go_container_manager.Service.Containers.{
  Config, Inputs, queue_capacity, create_job, start_guard, stop_guard, delete_guard, not_running,
  start_conflict, stop_conflict, delete_conflict, start, stop, delete,
}
use go_container_manager.Service.Containers.Operations.{
  Operation, starts, stops, deletes, job_type, refuses, perform,
}
use go_container_manager.Service.Containers.Guards.{Admits, guard-Admits, guard_ok}

-- On a database in which no statement fails, Start succeeds exactly when the container is there,
-- is the user's, has a status that Start does not refuse and no pending or running job, the new
-- job's id is unused, the context is not done and the channel has room.
start-ok_iff :
    (cfg : Config) (x : Inputs) (user_id container_id : String) (t : Tables) (queue : List Job)
    → is_ok (start cfg x user_id container_id (record { db = healthy t; queue = queue })).0 ≡ true
      ↔ Admits is_running t user_id container_id x.job_id
        × (x.expired ≡ false)
        × (length queue < queue_capacity)
unfolding start start_guard create_job
start-ok_iff cfg x user_id container_id t queue =
    let job = create_job x user_id container_id start_container in
    let admitted =
      guard-Admits is_running start_conflict t user_id container_id job cfg.tx_manager in
    (
      (λ h.
          let a =
            guard_ok is_running start_conflict t user_id container_id job cfg.tx_manager
              (ground arith) in
          (a, ground arith, ground (arith, admitted a))),
      (λ (a, e, r). ground (arith, admitted a)),
    )

-- On a database in which no statement fails, Start that succeeds has stored one pending start job
-- for the container, sent that same job, and changed nothing else.
start_effect :
    (cfg : Config) (x : Inputs) (user_id container_id : String) (t : Tables) (queue : List Job)
    → is_ok (start cfg x user_id container_id (record { db = healthy t; queue = queue })).0 ≡ true
    → let job = create_job x user_id container_id start_container in
      start cfg x user_id container_id (record { db = healthy t; queue = queue }) ≡ (
        ok job,
        record { db = healthy (record t { jobs = job ∷ t.jobs }); queue = queue ++ job ∷ [] },
      )
unfolding start start_guard create_job
start_effect cfg x user_id container_id t queue h =
    let job = create_job x user_id container_id start_container in
    let a = (start-ok_iff cfg x user_id container_id t queue).0 h in
    ground
      (arith, guard-Admits is_running start_conflict t user_id container_id job cfg.tx_manager a.0)

-- On a database in which no statement fails, Stop succeeds exactly when the container is there, is
-- the user's, has a status that Stop does not refuse and no pending or running job, the new job's
-- id is unused, the context is not done and the channel has room.
stop-ok_iff :
    (cfg : Config) (x : Inputs) (user_id container_id : String) (t : Tables) (queue : List Job)
    → is_ok (stop cfg x user_id container_id (record { db = healthy t; queue = queue })).0 ≡ true
      ↔ Admits not_running t user_id container_id x.job_id
        × (x.expired ≡ false)
        × (length queue < queue_capacity)
unfolding stop stop_guard create_job
stop-ok_iff cfg x user_id container_id t queue =
    let job = create_job x user_id container_id stop_container in
    let admitted =
      guard-Admits not_running stop_conflict t user_id container_id job cfg.tx_manager in
    (
      (λ h.
          let a =
            guard_ok not_running stop_conflict t user_id container_id job cfg.tx_manager
              (ground arith) in
          (a, ground arith, ground (arith, admitted a))),
      (λ (a, e, r). ground (arith, admitted a)),
    )

-- On a database in which no statement fails, Stop that succeeds has stored one pending stop job
-- for the container, sent that same job, and changed nothing else.
stop_effect :
    (cfg : Config) (x : Inputs) (user_id container_id : String) (t : Tables) (queue : List Job)
    → is_ok (stop cfg x user_id container_id (record { db = healthy t; queue = queue })).0 ≡ true
    → let job = create_job x user_id container_id stop_container in
      stop cfg x user_id container_id (record { db = healthy t; queue = queue }) ≡ (
        ok job,
        record { db = healthy (record t { jobs = job ∷ t.jobs }); queue = queue ++ job ∷ [] },
      )
unfolding stop stop_guard create_job
stop_effect cfg x user_id container_id t queue h =
    let job = create_job x user_id container_id stop_container in
    let a = (stop-ok_iff cfg x user_id container_id t queue).0 h in
    ground
      (arith, guard-Admits not_running stop_conflict t user_id container_id job cfg.tx_manager a.0)

-- On a database in which no statement fails, Delete succeeds exactly when the container is there,
-- is the user's, has a status that Delete does not refuse and no pending or running job, the new
-- job's id is unused, the context is not done and the channel has room.
delete-ok_iff :
    (cfg : Config) (x : Inputs) (user_id container_id : String) (t : Tables) (queue : List Job)
    → is_ok (delete cfg x user_id container_id (record { db = healthy t; queue = queue })).0 ≡ true
      ↔ Admits is_running t user_id container_id x.job_id
        × (x.expired ≡ false)
        × (length queue < queue_capacity)
unfolding delete delete_guard create_job
delete-ok_iff cfg x user_id container_id t queue =
    let job = create_job x user_id container_id delete_container in
    let admitted =
      guard-Admits is_running delete_conflict t user_id container_id job cfg.tx_manager in
    (
      (λ h.
          let a =
            guard_ok is_running delete_conflict t user_id container_id job cfg.tx_manager
              (ground arith) in
          (a, ground arith, ground (arith, admitted a))),
      (λ (a, e, r). ground (arith, admitted a)),
    )

-- On a database in which no statement fails, Delete that succeeds has stored one pending delete
-- job for the container, sent that same job, and changed nothing else.
delete_effect :
    (cfg : Config) (x : Inputs) (user_id container_id : String) (t : Tables) (queue : List Job)
    → is_ok (delete cfg x user_id container_id (record { db = healthy t; queue = queue })).0 ≡ true
    → let job = create_job x user_id container_id delete_container in
      delete cfg x user_id container_id (record { db = healthy t; queue = queue }) ≡ (
        ok job,
        record { db = healthy (record t { jobs = job ∷ t.jobs }); queue = queue ++ job ∷ [] },
      )
unfolding delete delete_guard create_job
delete_effect cfg x user_id container_id t queue h =
    let job = create_job x user_id container_id delete_container in
    let a = (delete-ok_iff cfg x user_id container_id t queue).0 h in
    ground
      (arith, guard-Admits is_running delete_conflict t user_id container_id job cfg.tx_manager a.0)

-- On a database in which no statement fails, Start, Stop and Delete each succeed exactly when the
-- container is there, is the user's, has a status that the operation does not refuse (Start and
-- Delete refuse Running, Stop all others) and no pending or running job, the new job's id is
-- unused, the context is not done and the channel has room.
pub perform-ok_iff :
    (op : Operation) (cfg : Config) (x : Inputs) (user_id container_id : String) (t : Tables)
    (queue : List Job)
    → is_ok (perform op cfg x user_id container_id (record { db = healthy t; queue = queue })).0
        ≡ true
      ↔ Admits (refuses op) t user_id container_id x.job_id
        × (x.expired ≡ false)
        × (length queue < queue_capacity)
perform-ok_iff starts = start-ok_iff
perform-ok_iff stops = stop-ok_iff
perform-ok_iff deletes = delete-ok_iff

-- On a database in which no statement fails, Start, Stop and Delete that succeed have each stored
-- one pending job of their type for the container, sent that same job, and changed nothing else.
pub perform_effect :
    (op : Operation) (cfg : Config) (x : Inputs) (user_id container_id : String) (t : Tables)
    (queue : List Job)
    → is_ok (perform op cfg x user_id container_id (record { db = healthy t; queue = queue })).0
      ≡ true
    → let job = create_job x user_id container_id (job_type op) in
      perform op cfg x user_id container_id (record { db = healthy t; queue = queue }) ≡ (
        ok job,
        record { db = healthy (record t { jobs = job ∷ t.jobs }); queue = queue ++ job ∷ [] },
      )
perform_effect starts = start_effect
perform_effect stops = stop_effect
perform_effect deletes = delete_effect
