-- ===== src/Repo/Files.antt =====
-- internal/repository/postgres/file_repo.go
use go_container_manager.Prelude.{
  ℕ, String, Bool, Option, none, some, List, ◌∷◌, ◌==◌, select, find, count, delete_where,
  sort_desc, ltb, if◌then◌else◌,
}
use go_container_manager.Errors.{not_found, pg_error}
use go_container_manager.Exec.{Result, ok, err, Exec, pure, lift, ◌>>=◌}
use go_container_manager.Domain.{File}
use go_container_manager.Db.{Tables, Db, statement}
use go_container_manager.Repo.Containers.{affected, pg_unique_violation}
use go_container_manager.Repo.Paging.{paged}

abbrev pub has_id : String → File → Bool
has_id id f = f.id == id

abbrev pub has_owner : String → File → Bool
has_owner user_id f = f.user_id == user_id

insert : File → Tables → Result (Unit {0}) × Tables
insert f t =
    if ltb 0 (count (has_id f.id) t.files)
    then (err (pg_error pg_unique_violation), t)
    else (ok tt, record t { files = f ∷ t.files })

unfoldable pub save : File → Exec Db (Unit {0})
unfolding insert
save f = statement (insert f)

-- ORDER BY created_at DESC, the newest first. Rows of the same time come in the order in which the database
-- happens to read them for this query.
abbrev pub newest_of : (List File → List File) → String → List File → List File
newest_of order user_id rows =
    sort_desc (λ f. f.created_at) (order (select (has_owner user_id) rows))

unfoldable pub find_by_user_id : (List File → List File) → String → ℕ → ℕ → Exec Db (List File × ℕ)
unfolding paged
find_by_user_id order user_id page limit = do
  total ← statement (λ t. (ok (count (has_owner user_id) t.files), t))
  rows ← statement (λ t. (paged page limit (newest_of order user_id t.files), t))
  pure (rows, total)

-- No row is pgx.ErrNoRows, which becomes ErrNotFound.
abbrev pub or_not_found : Option File → Result File
or_not_found none = err not_found
or_not_found (some f) = ok f

unfoldable pub find_by_id : String → Exec Db File
find_by_id id = do
  row ← statement (λ t. (ok (find (has_id id) t.files), t))
  lift (or_not_found row)

-- FOR UPDATE: the same row, locked until the transaction ends.
unfoldable pub find_by_id_for_update : String → Exec Db File
find_by_id_for_update id = do
  row ← statement (λ t. (ok (find (has_id id) t.files), t))
  lift (or_not_found row)

delete_row : String → Tables → Result ℕ × Tables
delete_row id t =
    (ok (count (has_id id) t.files), record t { files = delete_where (has_id id) t.files })

unfoldable pub delete : String → Exec Db (Unit {0})
unfolding delete_row
delete id = do n ← statement (delete_row id); lift (affected n)
