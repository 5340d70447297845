-- ===== src/Docker/Kept.antt =====
-- What a worker writes keeps every Docker container named by a row.
use go_container_manager.Prelude.{
  ◌≤◌, String, Bool, true, false, ◌||◌, ◌≡◌, none, some, arith, ◌==◌, eq_iff, count, find,
  delete_where,
}
use go_container_manager.Domain.{Container}
use go_container_manager.Db.{ContainerRow, Tables, healthy}
use go_container_manager.Repo.Containers.{has_id, overwrite, scan_container}
use go_container_manager.Repo.Containers.Rows.{IsKeyed}
use go_container_manager.Worker
use go_container_manager.Worker.{
  Runtime, Clock, Host, run_job, process_create, process_start, process_stop, process_delete,
  sync_container_state,
}
use go_container_manager.Worker.Steps.{with_container}
use go_container_manager.Worker.{or_image}
use go_container_manager.Docker.{Client, Os, runtime, wait_exit, inspect_state}
use go_container_manager.Docker.Rows.{holds, names-own, count-update_one, count-delete_one}
use go_container_manager.Docker.Contract.{IsDocker}

abbrev pub IsTracked : {S : Type 0} → (S → String → Bool) → Host S → Type 0
IsTracked has h = (d : String) → has h.outside d ≡ true → 1 ≤ count (holds d) h.db.containers

module _ {S : Type 0} (cli : Client S) (os : Os S) (has : S → String → Bool)
    (k : IsDocker cli os has) where
  pub sync-has :
      (id : String) (s : S) (d : String)
      → has (sync_container_state (runtime cli os) id s).1 d ≡ has s d
  unfolding sync_container_state runtime wait_exit inspect_state
  sync-has id s d = ground (
    arith,
    k.waited id Worker.state_wait_timeout s d,
    k.inspected id (cli.container_wait id Worker.state_wait_timeout s).1 d,
  )

  module _ (t : Tables) (keyed : IsKeyed t.containers) (r : ContainerRow) (id : String)
      (found : find (has_id id) t.containers ≡ some r) (s : S)
      (tracked : IsTracked has (record { db = healthy t; outside = s })) where
    -- A write that keeps the Docker id.
    pub written :
        (c : Container) (s' : S)
        → c.id ≡ id
        → c.docker_container_id ≡ (scan_container r).docker_container_id
        → ((d : String) → has s' d ≡ has s d)
        → IsTracked has (record { db = healthy (with_container c t); outside = s' })
    unfolding scan_container overwrite count
    written c s' e same kept d h = ground (
      arith,
      count-update_one (has_id c.id) (holds d) r (overwrite c) t.containers,
      keyed.one_id id,
      kept d,
      tracked d,
      k.named s,
      eq_iff "" d,
      eq_iff d "",
      eq_iff c.docker_container_id "",
    )

    pub untouched :
        (s' : S)
        → ((d : String) → has s' d ≡ has s d)
        → IsTracked has (record { db = healthy t; outside = s' })
    untouched s' kept d h = ground (arith, kept d, tracked d)

    -- A new container whose id goes into the row, which named none.
    pub created :
        (c : Container) (s' : S)
        → c.id ≡ id
        → r.docker_container_id ≡ none
        → ((d : String) → has s' d ≡ (d == c.docker_container_id || has s d))
        → IsTracked has (record { db = healthy (with_container c t); outside = s' })
    unfolding overwrite count
    created c s' e new grown d h = ground (
      arith,
      count-update_one (has_id c.id) (holds d) r (overwrite c) t.containers,
      keyed.one_id id,
      grown d,
      tracked d,
      k.named s',
      eq_iff d c.docker_container_id,
      eq_iff c.docker_container_id d,
      eq_iff c.docker_container_id "",
    )

    -- The row goes, and Docker no longer has what it named.
    pub deleted :
        (s' : S)
        → ((d : String) → has s' d ≡ true → has s d ≡ true)
        → has s' (scan_container r).docker_container_id ≡ false
        → IsTracked has (record {
          db = healthy (record t { containers = delete_where (has_id id) t.containers });
          outside = s';
        })
    unfolding scan_container count
    deleted s' kept gone d h = ground (
      arith,
      count-delete_one (has_id id) (holds d) r t.containers found (keyed.one_id id),
      kept d h,
      tracked d,
      names-own d r.docker_container_id,
    )
