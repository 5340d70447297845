-- ===== src/Db/Atomic.antt =====
-- Transactions are all or nothing.
use go_container_manager.Prelude.{false, ◌≡◌, arith}
use go_container_manager.Errors.{Error}
use go_container_manager.Exec.{Result, ok, err, is_ok, Exec}
use go_container_manager.Db.{Tables, Db, statement, with_tx}

module _ {A : Type 0} where
  -- A statement that fails has changed no table.
  pub statement-error :
      (q : Tables → Result A × Tables) (db : Db) {e : Error}
      → (statement q db).0 ≡ err e
      → (statement q db).1.tables ≡ db.tables
  unfolding statement
  statement-error q db h = ground arith

  -- A statement that succeeds has done what its query does.
  pub statement-ok :
      (q : Tables → Result A × Tables) (db : Db) {a : A}
      → (statement q db).0 ≡ ok a
      → ((q db.tables).0 ≡ ok a) × ((statement q db).1.tables ≡ (q db.tables).1)
  unfolding statement
  statement-ok q db h = ground arith

  -- A transaction that fails, in its body, at Begin or at Commit, leaves every table as it was.
  pub with_tx_failed :
      (fn : Exec Db A) (db : Db)
      → is_ok (with_tx fn db).0 ≡ false
      → (with_tx fn db).1.tables ≡ db.tables
  unfolding with_tx
  with_tx_failed fn db h = ground arith
