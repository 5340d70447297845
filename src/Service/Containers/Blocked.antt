-- ===== src/Service/Containers/Blocked.antt =====
-- A request that sendJob gave up blocks its container.
use go_container_manager.Prelude.{eq_refl, refl, String, true, ◌≡◌, some, List, ◌∷◌, arith, find}
use go_container_manager.Errors.{app, err_service_unavailable}
use go_container_manager.Exec.{err}
use go_container_manager.Domain.{is_running, Job, start_container, stop_container, delete_container}
use go_container_manager.Db.{ContainerRow, Tables, healthy}
use go_container_manager.Repo.Containers
use go_container_manager.Repo.Jobs
use go_container_manager.Service.Containers.{
  Config, Inputs, Server, not_running, start_guard, stop_guard, delete_guard, start, stop, delete,
  create_job, start_conflict, stop_conflict, delete_conflict,
}
use go_container_manager.Service.Containers.Guards.{Admits, guard-Admits}
use go_container_manager.Service.Containers.Faults.{guard_busy}

expired_start :
    (cfg : Config) (x : Inputs) (user_id container_id : String) (t : Tables) (queue : List Job)
    → Admits is_running t user_id container_id x.job_id
    → x.expired ≡ true
    → start cfg x user_id container_id (record { db = healthy t; queue = queue }) ≡ (
      err (app err_service_unavailable),
      record {
        db =
            healthy
              (record t { jobs = create_job x user_id container_id start_container ∷ t.jobs });
        queue = queue;
      },
    )
unfolding start start_guard
expired_start cfg x user_id container_id t queue a e = ground (
  arith,
  guard-Admits is_running start_conflict t user_id container_id
      (create_job x user_id container_id start_container) cfg.tx_manager a,
)

module _ (cfg : Config) (y : Inputs) (user_id container_id : String) (t : Tables)
    (row : ContainerRow) (busy : Job) (later : List Job)
    (found : find (Containers.has_id container_id) t.containers ≡ some row)
    (owned : row.user_id ≡ user_id) (active : Jobs.active_on container_id busy ≡ true) where
  start_refused :
      (start cfg y user_id container_id
        (record { db = healthy (record t { jobs = busy ∷ t.jobs }); queue = later })).0
      ≡ err (app start_conflict)
  unfolding start start_guard
  start_refused = ground (
    arith,
    guard_busy is_running start_conflict user_id container_id
        (create_job y user_id container_id start_container) cfg.tx_manager t row busy found owned
        active,
  )

  stop_refused :
      (stop cfg y user_id container_id
        (record { db = healthy (record t { jobs = busy ∷ t.jobs }); queue = later })).0
      ≡ err (app stop_conflict)
  unfolding stop stop_guard
  stop_refused = ground (
    arith,
    guard_busy not_running stop_conflict user_id container_id
        (create_job y user_id container_id stop_container) cfg.tx_manager t row busy found owned
        active,
  )

  delete_refused :
      (delete cfg y user_id container_id
        (record { db = healthy (record t { jobs = busy ∷ t.jobs }); queue = later })).0
      ≡ err (app delete_conflict)
  unfolding delete delete_guard
  delete_refused = ground (
    arith,
    guard_busy is_running delete_conflict user_id container_id
        (create_job y user_id container_id delete_container) cfg.tx_manager t row busy found owned
        active,
  )

-- A Start that the guard admitted and that sendJob gave up has put its job into no channel, and
-- every later Start, Stop and Delete of the container by its owner, before any other change of the
-- tables, is a conflict.
pub expired_start_blocks :
    (cfg : Config) (x y : Inputs) (user_id container_id : String) (t : Tables)
    (queue later : List Job)
    → Admits is_running t user_id container_id x.job_id
    → x.expired ≡ true
    → let (r, s') = start cfg x user_id container_id (record { db = healthy t; queue = queue }) in
      let s : Server = record s' { queue = later } in
      (r ≡ err (app err_service_unavailable))
      × (s'.queue ≡ queue)
      × ((start cfg y user_id container_id s).0 ≡ err (app start_conflict))
      × ((stop cfg y user_id container_id s).0 ≡ err (app stop_conflict))
      × ((delete cfg y user_id container_id s).0 ≡ err (app delete_conflict))
expired_start_blocks cfg x y user_id container_id t queue later a e =
    let job = create_job x user_id container_id start_container in
    let active : Jobs.active_on container_id job ≡ true =
      unfold create_job in rw (eq_refl container_id) in
    rw (expired_start cfg x user_id container_id t queue a e) (
      refl,
      refl,
      start_refused cfg y user_id container_id t a.row job later a.found a.owned active,
      stop_refused cfg y user_id container_id t a.row job later a.found a.owned active,
      delete_refused cfg y user_id container_id t a.row job later a.found a.owned active,
    )
