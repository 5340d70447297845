-- ===== src/Tests/Start.antt =====
-- A start of the server with an environment that sets two variables.
use go_container_manager.Prelude.{
  ℕ, String, Bool, true, false, ◌≡◌, ◌⊎◌, ◌==◌, refl, none, some, [], ◌∷◌, arith, count,
  if◌then◌else◌,
}
use go_container_manager.Errors.{plain}
use go_container_manager.Exec.{ok, err}
use go_container_manager.Db.{healthy}
use go_container_manager.Service.Files.{FileSystem}
use go_container_manager.Startup.{
  Libraries, Opened, App, exits, serves, new_handler, worker_pool_size,
}
use go_container_manager.Startup.Ready.{IsReady, can_start, new_handler_lem}
use go_container_manager.FilePath.{has_slash, unsplit}
use go_container_manager.FilePath.Names.{shown, IsName}
use go_container_manager.Startup.Migrations.{
  find_migrations_path, nearest, find_migrations_path_lem,
}
use go_container_manager.Http.{failure}
use go_container_manager.Log.{Level, parse_level, init, request_logger}
use go_container_manager.Tests.Data.{tables}
use go_container_manager.Tests.Access.{jwt}
use go_container_manager.Tests.Adapter.{Room, room, os, little}

abbrev getenv : String → String
getenv name =
    if name == "DATABASE_URL"
    then "postgres://db"
    else if name == "WORKER_POOL_SIZE"
    then "8"
    else ""

abbrev disk : FileSystem Room
disk = record {
  mkdir_all = λ path s. (ok tt, s);
  write_file = λ path content s. (ok tt, s);
  remove = λ path s. (ok tt, s);
  is_not_exist = λ e. false;
  detect_content_type = λ content. "text/plain";
}

abbrev libraries : Libraries Room
libraries = record {
  os = os;
  file_system = disk;
  jwt = jwt;
  matches = λ hash password. hash == password;
}

abbrev opened : Opened Room
opened = record {
  sql_opened = ok tt;
  driver = ok tt;
  migrator = ok tt;
  up = err (plain "no change");
  is_no_change = λ e. true;
  connected = ok tt;
  client = ok (little true);
}

pool_size_default : worker_pool_size "-3" ≡ 4
unfolding worker_pool_size
pool_size_default = refl

new_handler_lem_example :
    ((a : App Room) × (can_start getenv opened ≡ true)
      × (new_handler libraries getenv opened (healthy tables) room ≡ serves a)
      × IsReady getenv a)
    ⊎ ((can_start getenv opened ≡ false)
        × (new_handler libraries getenv opened (healthy tables) room ≡ exits 1))
unfolding count
new_handler_lem_example =
    new_handler_lem libraries getenv (healthy tables) room
      (record { no_tx = refl; not_aborted = refl }) (λ target. omega arith) (λ id. omega arith)
      opened

abbrev at_root : String → Bool
at_root p = p == "/migrations"

srv-IsName : IsName "srv"
unfolding has_slash
srv-IsName = record { plain = refl; not_empty = refl; not_dot = refl; not_dots = refl }

find_migrations_path_lem_example :
    find_migrations_path os (λ name. "") at_root room ≡ some (nearest at_root ("srv" ∷ []))
unfolding shown unsplit
find_migrations_path_lem_example =
    find_migrations_path_lem os (λ name. "") at_root room ("srv" ∷ []) refl refl (srv-IsName, tt)

climbs_up : nearest at_root ("srv" ∷ []) ≡ "/migrations"
unfolding shown unsplit
climbs_up = refl

warns : parse_level "Warning" ≡ Level.warn
unfolding parse_level
warns = refl

says_nothing : init (λ name. "") ≡ Level.info
unfolding init
says_nothing = refl

refused_line :
    (request_logger {A = ℕ}
      (record {
        method = "GET";
        url_path = "/api/v1/containers";
        raw_query = "page=2";
        client_ip = "::1";
        latency = 5;
      })
      none
      (record { status = 401; body = failure "UNAUTHORIZED" "Unauthorized" }, 0)).0
    ≡ record {
      level = Level.warn;
      method = "GET";
      path = "/api/v1/containers?page=2";
      status = 401;
      latency = 5;
      client_ip = "::1";
      user_id = none;
    }
unfolding request_logger
refused_line = refl
