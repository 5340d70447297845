-- ===== src/Tests/Access.antt =====
-- Witnesses for files, logins and the router, with an operating system that counts its calls and a jwt
-- library whose tokens are their subjects.
use Prim.Native.String.{◌++◌}
use go_container_manager.Prelude.{
  ℕ, suc, String, true, false, ◌≡◌, ◌↔◌, ◌⊎◌, some, refl, List, [], ◌∷◌, arith, find, count,
  delete_where, ◌==◌,
}
use go_container_manager.Exec.{ok, is_ok}
use go_container_manager.Domain.{User, File}
use go_container_manager.Db.{Tables, healthy, statement}
use go_container_manager.Repo.Files as Rows
use go_container_manager.Repo.Users
use go_container_manager.FilePath.{join, has_slash, is_rooted}
use go_container_manager.FilePath.Names.{IsName, shown}
use go_container_manager.Service.Files
use go_container_manager.Service.Files.{
  FileSystem, Storage, storage_path, upload, place, new_file, mime_of, run_guarded, delete_guard,
  find_file_for_guard,
}
use go_container_manager.Service.Files.Paths.{storage_path-IsName}
use go_container_manager.Service.Files.Uploads.{Written, upload-ok_iff}
use go_container_manager.Service.Files.Deletes.{delete_lem}
use go_container_manager.Auth.{
  Jwt, login, generate_token, authenticate, validate_token, split_space,
}
use go_container_manager.Auth.Tokens.{IsFaithful, login-authenticate}
use go_container_manager.Http.{Request, failure}
use go_container_manager.Http.Handlers.{Site, Setup, Moment, serve, handle}
use go_container_manager.Http.Access.{serve_protected, serve_foreign, stops, stops_one, Bears}
use go_container_manager.Tests.Data.{tables, service, inputs, busy}

abbrev disk : FileSystem ℕ
disk = record {
  mkdir_all = λ path s. (ok tt, suc s);
  write_file = λ path content s. (ok tt, suc s);
  remove = λ path s. (ok tt, suc s);
  is_not_exist = λ e. false;
  detect_content_type = λ content. "text/plain; charset=utf-8";
}

abbrev moment : Files.Inputs
moment = record { file_id = "f1"; now = 100 }

storage_path-IsName_example :
    (folder : List String) × (name : String) × (join "/data" "alice"
      ≡ shown (is_rooted "/data") folder)
    × IsName name
    × (storage_path "/data" "alice" "../../etc/passwd" "f1"
        ≡ shown (is_rooted "/data") (name ∷ folder))
unfolding has_slash
storage_path-IsName_example =
    storage_path-IsName "/data" "alice" "../../etc/passwd" "f1" (λ e. cc e) refl

upload-ok_iff_example :
    is_ok
        (upload disk "/data" moment "alice" "a.txt"
          (65 ∷ [])
          (record { db = healthy tables; outside = 0 })).0
      ≡ true
    ↔ Written disk "/data" moment "alice" "a.txt" (65 ∷ []) 0
      × (count (Rows.has_id "f1") tables.files ≡ 0)
upload-ok_iff_example = upload-ok_iff disk "/data" moment "alice" "a.txt" (65 ∷ []) tables 0

abbrev pub note : File
note = record {
  id = "f1";
  user_id = "alice";
  original_filename = "a.txt";
  storage_path = "/data/alice/a_f1.txt";
  mime_type = "text/plain";
  size_bytes = 1;
  created_at = 100;
}

abbrev filed : Tables
filed = record tables { files = note ∷ [] }

delete_lem_example :
    Files.delete disk true "alice" "f1" (record { db = healthy filed; outside = 0 }) ≡ (
      ok tt,
      record {
        db = healthy (record filed { files = delete_where (Rows.has_id "f1") filed.files });
        outside = 1;
      },
    )
unfolding find
delete_lem_example = delete_lem disk "alice" "f1" true filed 0 note refl

abbrev pub jwt : Jwt
jwt = record {
  sign = λ c secret. ok c.sub;
  parse = λ now token key. ok (record { is_map_claims = true; valid = true; subject = ok token });
}

jwt-IsFaithful : IsFaithful jwt
jwt-IsFaithful = record { parse-sign = λ c secret token now e early. ground arith }

abbrev alice : User
alice = record { id = "alice"; username = "al"; password_hash = "pw"; created_at = 0 }

abbrev known : Tables
known = record tables { users = alice ∷ [] }

login-authenticate_example :
    (u : User) × (find (Users.has_username "al") known.users ≡ some u)
    × ((u.password_hash == "pw") ≡ true)
    × (authenticate jwt 20 "key" ("Bearer " ++ "alice") ≡ ok u.id)
unfolding login generate_token Users.find_by_username statement find
login-authenticate_example =
    login-authenticate jwt (λ hash password. hash == password) 10 20 "key" "al" "pw" "alice" 3600
      (healthy known) jwt-IsFaithful refl (omega arith)

abbrev pub setup : Setup ℕ
setup = record {
  service = service;
  file_system = disk;
  storage_root = "/data";
  jwt = jwt;
  jwt_secret = "key";
  matches = λ hash password. hash == password;
  environments = "ubuntu-base" ∷ [];
}

abbrev pub present : Moment
present = record {
  inputs = inputs;
  file_inputs = moment;
  seconds = 10;
  container_order = λ rows. rows;
  file_order = λ rows. rows;
}

abbrev pub site : Site ℕ
site = record { db = healthy tables; queue = []; outside = 0 }

serve_protected_example :
    let r = Request.stop_container "c2" in
    (((serve setup present "Bearer bob" r site).1 ≡ site)
      × ((serve setup present "Bearer bob" r site).0.status ≡ 401)
      × ((user : String) → ¬ Bears jwt 10 "key" "Bearer bob" user))
    ⊎ ((user : String) × Bears jwt 10 "key" "Bearer bob" user
        × (serve setup present "Bearer bob" r site ≡ handle setup present user r site))
serve_protected_example =
    serve_protected setup present "Bearer bob" (Request.stop_container "c2") site (stops_one "c2")

serve_foreign_example :
    let answer = serve setup present "Bearer bob" (Request.stop_container "c2") site in
    (answer.1 ≡ site)
    × (answer.0.status ≡ 403)
    × ((message : String) × (answer.0.body ≡ failure "FORBIDDEN" message))
unfolding authenticate split_space validate_token find
serve_foreign_example =
    serve_foreign setup present "Bearer bob" "bob" "c2" (Request.stop_container "c2") tables busy []
      0 refl stops refl refl
