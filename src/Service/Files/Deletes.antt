-- ===== src/Service/Files/Deletes.antt =====
-- Delete of a file: who may, and what goes.
use go_container_manager.Prelude.{
  String, Bool, true, false, ◌≡◌, arith, find, some, inl, inr, find-none_iff, delete_where, ◌==◌,
  if◌then◌else◌,
}
use go_container_manager.Errors.{app, new, wrapped}
use go_container_manager.Exec.{ok, err, is_ok, Result-cases}
use go_container_manager.Domain.{File}
use go_container_manager.Db.{Tables, healthy, statement, with_tx}
use go_container_manager.Db.Atomic.{with_tx_failed}
use go_container_manager.Repo.Files
use go_container_manager.Service.Files.{
  FileSystem, Storage, find_file_for_guard, delete_guard, run_guarded, delete,
}

module _ {S : Type 0} (fs : FileSystem S) (user_id id : String) where
  -- On a database in which no statement fails, Delete of a file that exists removes its row and
  -- then, if its path is not empty, the stored file if the user owns it, and answers as that
  -- removal does, with no error where the file is gone already and the error wrapped where there
  -- is another; another user gets a 403 and nothing changes.
  pub delete_lem :
      (tx : Bool) (t : Tables) (s : S) (f : File)
      → find (λ x. x.id == id) t.files ≡ some f
      → let gone = healthy (record t { files = delete_where (λ x. x.id == id) t.files }) in
        let (answer, after) = fs.remove f.storage_path s in
        delete fs tx user_id id (record { db = healthy t; outside = s }) ≡ (
          if f.user_id == user_id
          then (if f.storage_path == "" then (ok tt, record { db = gone; outside = s }) else (
            elim answer [
              | ok _ ↦ ok tt
              | err e ↦ if fs.is_not_exist e then ok tt else err (wrapped "remove file" e)
            ],
            record { db = gone; outside = after },
          ))
          else (
            err (app (new 403 "FORBIDDEN" "You do not have permission")),
            record { db = healthy t; outside = s },
          ))
  unfolding delete run_guarded delete_guard with_tx statement find_file_for_guard Files.find_by_id
      Files.find_by_id_for_update Files.delete
  delete_lem true t s f found = elim (Result-cases (fs.remove f.storage_path s).0) [
    | inl (_, e) ↦ ground (arith, e, find-none_iff (Files.has_id id) t.files)
    | inr (x, e) ↦ ground (arith, e, find-none_iff (Files.has_id id) t.files)
  ]
  delete_lem false t s f found = elim (Result-cases (fs.remove f.storage_path s).0) [
    | inl (_, e) ↦ ground (arith, e, find-none_iff (Files.has_id id) t.files)
    | inr (x, e) ↦ ground (arith, e, find-none_iff (Files.has_id id) t.files)
  ]

  -- With a TxManager, whichever statements fail, a Delete of a file whose transaction fails
  -- answers an error, leaves every table as it was and does not touch the stored file.
  pub delete_untouched :
      (h : Storage S)
      → is_ok (run_guarded true (delete_guard true user_id id) h.db).0 ≡ false
      → ((delete fs true user_id id h).1.db.tables ≡ h.db.tables)
        × ((delete fs true user_id id h).1.outside ≡ h.outside)
        × (is_ok (delete fs true user_id id h).0 ≡ false)
  unfolding delete run_guarded
  delete_untouched h e = ground (arith, with_tx_failed (delete_guard true user_id id) h.db)
