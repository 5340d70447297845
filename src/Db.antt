-- ===== src/Db.antt =====
-- internal/repository/postgres/tx.go, and the database as the repositories see it: four tables, a
-- transaction, and what goes wrong. A statement may fail for a reason that the repositories do not
-- choose (a lost connection, a foreign key, a value that is too long): `faults` says of each
-- statement to come whether it does, and an empty list means that none does. As PostgreSQL documents,
-- a failed statement has changed nothing, and inside a transaction every later one fails.
pub mod Atomic
use go_container_manager.Prelude.{
  ℕ, String, Bool, true, false, Option, none, some, List, [], ◌∷◌, ◌≡◌, if◌then◌else◌,
}
use go_container_manager.Errors.{Error, plain}
use go_container_manager.Exec.{Result, ok, err, Exec}
use go_container_manager.Domain.{ContainerStatus, Job, File, User}

-- A row of `containers`; `docker_container_id` may be NULL.
pub record ContainerRow : Type 0 where
  pub id : String
  pub user_id : String
  pub name : String
  pub environment : String
  pub command : List String
  pub status : ContainerStatus
  pub mount_path : String
  pub docker_container_id : Option String
  pub created_at : ℕ
  pub updated_at : ℕ

pub record Tables : Type 0 where
  pub containers : List ContainerRow
  pub jobs : List Job
  pub files : List File
  pub users : List User

pub record Db : Type 0 where
  pub tables : Tables
  pub open tables use *
  pub in_tx : Bool
  pub aborted : Bool
  pub faults : List (Option String)

-- A database with these tables, outside any transaction, in which no statement fails.
abbrev pub healthy : Tables → Db
healthy t = record { tables = t; in_tx = false; aborted = false; faults = [] }

abbrev pub tx_aborted : Error
tx_aborted = plain "current transaction is aborted, commands ignored until end of transaction block"

abbrev pub next_fault : List (Option String) → Option String
next_fault [] = none
next_fault (f ∷ _) = f

abbrev pub later_faults : List (Option String) → List (Option String)
later_faults [] = []
later_faults (_ ∷ fs) = fs

module _ {A : Type 0} where
  -- A constraint that the statement itself violates aborts the transaction too.
  answer : Db → Result A × Tables → Result A × Db
  answer db (ok a, t) = (ok a, record db { tables = t })
  answer db (err e, t) = (err e, record db { aborted = db.in_tx })

  sent : Option String → (Tables → Result A × Tables) → Db → Result A × Db
  unfolding answer
  sent (some msg) q db = (err (plain msg), record db { aborted = db.in_tx })
  sent none q db = answer db (q db.tables)

  -- One call of Query, QueryRow or Exec on the connection that `getQueryable` chose.
  unfoldable pub statement : (Tables → Result A × Tables) → Exec Db A
  unfolding sent
  statement q db =
      if db.aborted
      then (err tx_aborted, db)
      else sent (next_fault db.faults) q (record db { faults = later_faults db.faults })

  -- `tx.Commit`: a transaction that was aborted is rolled back instead, and Commit says so.
  commit : Db → A → Db → Result A × Db
  commit before a db =
      let back = record before { faults = later_faults db.faults } in
      if db.aborted
      then (err (plain "commit unexpectedly resulted in rollback"), back)
      else elim (next_fault db.faults) [
        | some msg ↦ (err (plain msg), back)
        | none ↦ (ok a, record back { tables = db.tables })
      ]

  -- `WithTx` after `Begin`: an error of `fn` rolls back, otherwise the transaction is committed.
  finish_tx : Db → Result A × Db → Result A × Db
  unfolding commit
  finish_tx before (err e, db) = (err e, record before { faults = db.faults })
  finish_tx before (ok a, db) = commit before a db

  begun : Option String → Exec Db A → Exec Db A
  unfolding finish_tx
  begun (some msg) fn db = (err (plain msg), db)
  begun none fn db = finish_tx db (fn (record db { in_tx = true; aborted = false }))

  unfoldable pub with_tx : Exec Db A → Exec Db A
  unfolding begun
  with_tx fn db = begun (next_fault db.faults) fn (record db { faults = later_faults db.faults })
