-- ===== src/Service/Containers/Faults.antt =====
-- The guards when statements may fail: with a transaction, and without.
use go_container_manager.Prelude.{
  String, Bool, true, false, ◌≡◌, inl, inr, none, some, [], ◌∷◌, eq_iff, arith, find, count,
  find-none_iff, Option-cases,
}
use go_container_manager.Errors.{AppError, app}
use go_container_manager.Exec.{Exec, ok, err, is_ok}
use go_container_manager.Domain.{ContainerStatus, Job}
use go_container_manager.Db.{ContainerRow, Tables, Db, healthy, statement, with_tx}
use go_container_manager.Db.Atomic.{with_tx_failed}
use go_container_manager.Repo.Containers
use go_container_manager.Repo.Jobs
use go_container_manager.Service.Containers.{run_guarded, guard, find_container_for_guard}
use go_container_manager.Service.Containers.Guards.{Admits}

-- No transaction is open on the connection.
pub record IsIdle (db : Db) : Type 0 where
  pub no_tx : db.in_tx ≡ false
  pub not_aborted : db.aborted ≡ false

-- A guarded transaction that fails, for whatever reason, leaves the tables as they were.
pub run_guarded-error :
    (fn : Exec Db (Unit {0})) (db : Db)
    → is_ok (run_guarded true fn db).0 ≡ false
    → (run_guarded true fn db).1.tables ≡ db.tables
unfolding run_guarded
run_guarded-error fn db h = ground (arith, with_tx_failed fn db)

module _ (refuses : ContainerStatus → Bool) (refusal : AppError) (user_id container_id : String)
    (job : Job) where
  -- With a TxManager the guard of Start, Stop and Delete lets a request pass only if it should,
  -- whichever statements fail, and then has stored exactly its job.
  pub guard-Admits_faults :
      (db : Db)
      → IsIdle db
      → (run_guarded true (guard refuses refusal true user_id container_id job) db).0 ≡ ok tt
      → Admits refuses db.tables user_id container_id job.id
        × ((run_guarded true (guard refuses refusal true user_id container_id job) db).1.tables
            ≡ record db.tables { jobs = job ∷ db.tables.jobs })
  unfolding run_guarded guard with_tx statement find_container_for_guard
      Containers.find_by_id_for_update Jobs.find_pending_or_running_by_target Jobs.save
  guard-Admits_faults db i h =
      elim (Option-cases (find (Containers.has_id container_id) db.tables.containers)) [
        | inl e ↦ ground arith
        | inr (row, e) ↦ (
          record {
            row = row;
            found = e;
            owned = ground (arith, eq_iff row.user_id user_id);
            idle = ground (arith, find-none_iff (Jobs.active_on container_id) db.tables.jobs);
            ready = ground arith;
            fresh = ground arith;
          },
          ground arith,
        )
      ]

  -- A container with an active job is refused.
  pub guard_busy :
      (tx : Bool) (t : Tables) (row : ContainerRow) (busy : Job)
      → find (Containers.has_id container_id) t.containers ≡ some row
      → row.user_id ≡ user_id
      → Jobs.active_on container_id busy ≡ true
      → (run_guarded tx
          (guard refuses refusal tx user_id container_id job)
          (healthy (record t { jobs = busy ∷ t.jobs }))).0
        ≡ err (app refusal)
  unfolding run_guarded guard with_tx statement find find_container_for_guard Containers.find_by_id
      Containers.find_by_id_for_update Jobs.find_pending_or_running_by_target Jobs.save
  guard_busy tx t row busy found owned active = ground (arith, eq_iff row.user_id user_id)

  -- Without a TxManager, a guard whose lookup of the active job fails stores a second job whether
  -- or not the container has an active one.
  guard_without_tx :
      (t : Tables) (row : ContainerRow) (msg : String)
      → find (Containers.has_id container_id) t.containers ≡ some row
      → row.user_id ≡ user_id
      → refuses row.status ≡ false
      → count (Jobs.has_id job.id) t.jobs ≡ 0
      → let db = record (healthy t) { faults = none ∷ some msg ∷ [] } in
        run_guarded false (guard refuses refusal false user_id container_id job) db
        ≡ (ok tt, healthy (record t { jobs = job ∷ t.jobs }))
  unfolding run_guarded guard statement find_container_for_guard Containers.find_by_id
      Jobs.find_pending_or_running_by_target Jobs.save
  guard_without_tx t row msg found owned ready fresh = ground (arith, eq_iff row.user_id user_id)
