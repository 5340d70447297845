-- ===== src/Repo/Users.antt =====
-- internal/repository/postgres/user_repo.go
use go_container_manager.Prelude.{String, Bool, Option, none, some, ◌==◌, find}
use go_container_manager.Errors.{not_found}
use go_container_manager.Exec.{Result, ok, err, Exec, lift, ◌>>=◌}
use go_container_manager.Domain.{User}
use go_container_manager.Db.{Db, statement}

abbrev pub has_username : String → User → Bool
has_username username u = u.username == username

-- No row is pgx.ErrNoRows, which becomes ErrNotFound.
abbrev pub or_not_found : Option User → Result User
or_not_found none = err not_found
or_not_found (some u) = ok u

unfoldable pub find_by_username : String → Exec Db User
find_by_username username = do
  row ← statement (λ t. (ok (find (has_username username) t.users), t))
  lift (or_not_found row)
