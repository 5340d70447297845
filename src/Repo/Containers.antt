-- ===== src/Repo/Containers.antt =====
-- internal/repository/postgres/container_repo.go
pub mod Laws
pub mod Rows
pub mod Keys
use go_container_manager.Prelude.{
  ℕ, String, Bool, true, false, not, ◌&&◌, ◌||◌, Option, none, some, List, [], ◌∷◌, map, ◌==◌, ◌≡◌,
  length, select, find, count, update_where, delete_where, sort_desc, leb, ltb, if◌then◌else◌,
}
use go_container_manager.Errors.{Error, not_found, duplicate, pg_error}
use go_container_manager.Errors.Chain.{has_pg_code}
use go_container_manager.Exec.{Result, ok, err, Exec, pure, raise, lift, attempt, ◌>>=◌, ◌>>◌}
use go_container_manager.Domain.{Container}
use go_container_manager.Db.{ContainerRow, Tables, Db, statement}
use go_container_manager.Repo.Paging.{paged}

abbrev pub pg_unique_violation : String
pg_unique_violation = "23505"

abbrev pub null_if_empty : String → Option String
null_if_empty s = if s == "" then none else some s

abbrev pub empty_if_null : Option String → String
empty_if_null none = ""
empty_if_null (some s) = s

-- The values of INSERT. The command goes through json.Marshal, and comes back the same list.
unfoldable pub to_row : Container → ContainerRow
to_row c = record {
  id = c.id;
  user_id = c.user_id;
  name = c.name;
  environment = c.environment;
  command = c.command;
  status = c.status;
  mount_path = c.mount_path;
  docker_container_id = null_if_empty c.docker_container_id;
  created_at = c.created_at;
  updated_at = c.updated_at;
}

unfoldable pub scan_container : ContainerRow → Container
scan_container r = record {
  id = r.id;
  user_id = r.user_id;
  name = r.name;
  environment = r.environment;
  command = r.command;
  status = r.status;
  mount_path = r.mount_path;
  docker_container_id = empty_if_null r.docker_container_id;
  created_at = r.created_at;
  updated_at = r.updated_at;
}

abbrev pub has_id : String → ContainerRow → Bool
has_id id r = r.id == id

abbrev pub has_owner : String → ContainerRow → Bool
has_owner user_id r = r.user_id == user_id

-- UNIQUE (user_id, name)
abbrev pub has_name : String → String → ContainerRow → Bool
has_name user_id name r = r.user_id == user_id && r.name == name

-- `containers` refuses a second row with the primary key or with the user and name of another.
insert : ContainerRow → Tables → Result (Unit {0}) × Tables
insert row t =
    if ltb 0 (count (has_id row.id) t.containers)
      || ltb 0 (count (has_name row.user_id row.name) t.containers)
    then (err (pg_error pg_unique_violation), t)
    else (ok tt, record t { containers = row ∷ t.containers })

-- `if err != nil { if it is a unique violation { return ErrDuplicate }; return err }`
abbrev pub or_duplicate : Result (Unit {0}) → Result (Unit {0})
or_duplicate (ok v) = ok v
or_duplicate (err e) = if has_pg_code pg_unique_violation e then err duplicate else err e

unfoldable pub save : Container → Exec Db (Unit {0})
unfolding insert to_row
save c = do r ← attempt (statement (insert (to_row c))); lift (or_duplicate r)

-- SELECT … WHERE user_id = $1 ORDER BY created_at DESC, the newest first
abbrev pub newest_of :
    (List ContainerRow → List ContainerRow) → String → List ContainerRow → List ContainerRow
newest_of order user_id rows =
    sort_desc (λ r. r.created_at) (order (select (has_owner user_id) rows))

unfoldable pub find_by_user_id :
    (List ContainerRow → List ContainerRow) → String → ℕ → ℕ → Exec Db (List Container × ℕ)
unfolding scan_container paged
find_by_user_id order user_id page limit = do
  total ← statement (λ t. (ok (count (has_owner user_id) t.containers), t))
  rows ← statement (λ t. (paged page limit (newest_of order user_id t.containers), t))
  pure (map scan_container rows, total)

-- `if !rows.Next() { return ErrNotFound }`, else the row is scanned
abbrev pub scan_first : Option ContainerRow → Result Container
scan_first none = err not_found
scan_first (some r) = ok (scan_container r)

unfoldable pub find_by_id : String → Exec Db Container
unfolding scan_container
find_by_id id = do
  row ← statement (λ t. (ok (find (has_id id) t.containers), t))
  lift (scan_first row)

-- FOR UPDATE: the same row, locked until the transaction ends.
unfoldable pub find_by_id_for_update : String → Exec Db Container
unfolding scan_container
find_by_id_for_update id = do
  row ← statement (λ t. (ok (find (has_id id) t.containers), t))
  lift (scan_first row)

unfoldable pub find_by_user_id_and_name : String → String → Exec Db Container
unfolding scan_container
find_by_user_id_and_name user_id name = do
  row ← statement (λ t. (ok (find (has_name user_id name) t.containers), t))
  lift (scan_first row)

-- The columns that UPDATE sets; the owner and the creation time stay.
unfoldable pub overwrite : Container → ContainerRow → ContainerRow
overwrite c r = record r {
  name = c.name;
  environment = c.environment;
  command = c.command;
  status = c.status;
  mount_path = c.mount_path;
  docker_container_id = null_if_empty c.docker_container_id;
  updated_at = c.updated_at;
}

-- The rows of the user with this name, but for the one that is updated.
abbrev pub taken_by_other : String → Container → ContainerRow → Bool
taken_by_other user_id c r = has_name user_id c.name r && not (r.id == c.id)

-- UNIQUE (user_id, name) at the row that UPDATE rewrites; `id` is the primary key, so it is one row.
abbrev pub clashes : Container → List ContainerRow → Option ContainerRow → Bool
clashes c rows none = false
clashes c rows (some r) = ltb 0 (count (taken_by_other r.user_id c) rows)

unfoldable pub name_clash : Container → List ContainerRow → Bool
name_clash c rows = clashes c rows (find (has_id c.id) rows)

-- UPDATE … WHERE id = $1, with the number of rows that it touched
set_row : Container → Tables → Result ℕ × Tables
unfolding overwrite name_clash
set_row c t = if name_clash c t.containers then (err (pg_error pg_unique_violation), t) else (
  ok (count (has_id c.id) t.containers),
  record t { containers = update_where (has_id c.id) (overwrite c) t.containers },
)

-- `if ct.RowsAffected() == 0 { return ErrNotFound }`
abbrev pub affected : ℕ → Result (Unit {0})
affected n = if ltb 0 n then ok tt else err not_found

unfoldable pub update : Container → Exec Db (Unit {0})
unfolding set_row
update c = do n ← statement (set_row c); lift (affected n)

delete_row : String → Tables → Result ℕ × Tables
delete_row id t = (
  ok (count (has_id id) t.containers),
  record t { containers = delete_where (has_id id) t.containers },
)

unfoldable pub delete : String → Exec Db (Unit {0})
unfolding delete_row
delete id = do n ← statement (delete_row id); lift (affected n)
