-- ===== src/Service/Files.antt =====
-- internal/service/file_svc.go. The operating system is a `FileSystem` over a state of its own, and
-- http.DetectContentType a function of it. A content is its list of bytes.
pub mod Paths
pub mod Uploads
pub mod Deletes
pub mod Stored
pub mod Calls
use Prim.Native.Char.{Char, code}
use Prim.Native.String.{◌++◌}
use go_container_manager.Prelude.{
  ℕ, ◌*◌, String, Bool, true, false, not, ◌&&◌, ◌||◌, none, some, List, ◌==◌, eqb, leb, ltb, length,
  if◌then◌else◌,
}
use go_container_manager.Errors.{
  Error, app, wrapped, err_file_too_large, err_unsupported_mime, err_forbidden, err_file_not_found,
}
use go_container_manager.Errors.Chain.{is_not_found, assert_app_error}
use go_container_manager.Exec.{
  Result, ok, err, Exec, pure, raise, lift, attempt, unless, ◌>>=◌, ◌>>◌,
}
use go_container_manager.Domain.{File}
use go_container_manager.FilePath.{join3, dir, base, ext, trim_suffix}
use go_container_manager.Db.{Db, with_tx}
use go_container_manager.Repo.Files
use go_container_manager.Service.Containers.{clamp_page, clamp_limit, in_tx_if}

pub record FileSystem (S : Type 0) : Type 0 where
  pub mkdir_all : String → Exec S (Unit {0})
  pub write_file : String → List ℕ → Exec S (Unit {0})
  pub remove : String → Exec S (Unit {0})
  pub is_not_exist : Error → Bool
  pub detect_content_type : List ℕ → String

-- The id of uuid.New and the clock.
pub record Inputs : Type 0 where
  pub file_id : String
  pub now : ℕ

pub record Storage (S : Type 0) : Type 0 where
  pub db : Db
  pub outside : S

-- 50MB
abbrev pub max_file_size : ℕ
max_file_size = 50 * 1024 * 1024

abbrev pub allowed_mime : String → Bool
allowed_mime m =
    m == "text/plain"
    || m == "image/jpeg"
    || m == "image/png"
    || m == "application/json"
    || m == "text/csv"

-- strings.SplitN(s, ";", 2)[0]
unfoldable pub before_semicolon : String → String
before_semicolon String.[] = ""
before_semicolon (String.◌∷◌ c s) =
    let rest = before_semicolon s in if eqb (code c) b';' then "" else String.◌∷◌ c rest

-- unicode.IsSpace
abbrev pub is_space : Char → Bool
is_space c =
    let n = code c in
    leb 9 n && leb n 13
    || eqb n 32
    || eqb n 133
    || eqb n 160
    || eqb n 5760
    || leb 8192 n && leb n 8202
    || eqb n 8232
    || eqb n 8233
    || eqb n 8239
    || eqb n 8287
    || eqb n 12288

unfoldable pub trim_left : String → String
trim_left String.[] = ""
trim_left (String.◌∷◌ c s) = let rest = trim_left s in if is_space c then rest else String.◌∷◌ c s

unfoldable pub trim_right : String → String
trim_right String.[] = ""
trim_right (String.◌∷◌ c s) =
    let rest = trim_right s in if rest == "" && is_space c then "" else String.◌∷◌ c rest

-- "text/plain; charset=utf-8" is text/plain.
unfoldable pub mime_of : String → String
unfolding before_semicolon trim_left trim_right
mime_of detected = trim_right (trim_left (before_semicolon detected))

-- Base prevents path traversal.
unfoldable pub safe_name : String → String
safe_name filename =
    let name = base filename in if name == "" || name == "." then "unnamed" else name

abbrev pub or_unnamed : String → String
or_unnamed s = if s == "" then "unnamed" else s

unfoldable pub build_storage_filename : String → String → String
build_storage_filename name file_id =
    or_unnamed (trim_suffix name (ext name)) ++ ("_" ++ (file_id ++ ext name))

unfoldable pub storage_path : String → String → String → String → String
unfolding safe_name build_storage_filename
storage_path root user_id filename file_id =
    join3 root user_id (build_storage_filename (safe_name filename) file_id)

unfoldable pub new_file : String → Inputs → String → String → String → List ℕ → File
new_file root x user_id filename mime content = record {
  id = x.file_id;
  user_id = user_id;
  original_filename = filename;
  storage_path = storage_path root user_id filename x.file_id;
  mime_type = mime;
  size_bytes = length content;
  created_at = x.now;
}

-- fmt.Errorf("text: %w", err)
abbrev pub wrap_error : String → Result (Unit {0}) → Result (Unit {0})
wrap_error text (ok v) = ok v
wrap_error text (err e) = err (wrapped text e)

unfoldable pub list : (List File → List File) → String → ℕ → ℕ → Exec Db (List File × ℕ)
list order user_id page limit =
    Files.find_by_user_id order user_id (clamp_page page) (clamp_limit limit)

unfoldable pub find_file_for_guard : Bool → String → Exec Db File
find_file_for_guard true id = Files.find_by_id_for_update id
find_file_for_guard false id = Files.find_by_id id

abbrev pub guard_error : Error → Error
guard_error e =
    if is_not_found e
    then app err_file_not_found
    else elim (assert_app_error e) [ some a ↦ app a | none ↦ e ]

-- The guard of Delete; the path that it assigns to `storagePath` comes back beside the error.
unfoldable pub delete_guard : Bool → String → String → Exec Db String
delete_guard tx user_id file_id = do
  file ← find_file_for_guard tx file_id
  unless (not (file.user_id == user_id)) (app err_forbidden)
      do Files.delete file_id; pure file.storage_path

abbrev pub guarded : Bool → Exec Db String → Exec Db String
guarded true fn = with_tx fn
guarded false fn = fn

abbrev pub guard_result : Result String → Result String
guard_result (ok path) = ok path
guard_result (err e) = err (guard_error e)

unfoldable pub run_guarded : Bool → Exec Db String → Exec Db String
run_guarded tx fn = do r ← attempt (guarded tx fn); lift (guard_result r)

module _ {S : Type 0} where
  abbrev pub on_rows : {A : Type 0} → Exec Db A → Exec (Storage S) A
  on_rows m h = ((m h.db).0, record h { db = (m h.db).1 })

  abbrev pub on_disk : {A : Type 0} → Exec S A → Exec (Storage S) A
  on_disk m h = ((m h.outside).0, record h { outside = (m h.outside).1 })

  -- Best-effort cleanup: the file goes again if its row could not be stored.
  abbrev pub clean_up : FileSystem S → String → Result (Unit {0}) → S → S
  clean_up fs path (ok _) s = s
  clean_up fs path (err e) s = (fs.remove path s).1

  -- The file is written before its row.
  unfoldable pub place : FileSystem S → List ℕ → File → Exec (Storage S) File
  place fs content file = do
    made ← attempt (on_disk (fs.mkdir_all (dir file.storage_path)))
    lift (wrap_error "create storage dir" made)
    written ← attempt (on_disk (fs.write_file file.storage_path content))
    lift (wrap_error "write file" written)
    saved ← attempt (on_rows (Files.save file))
    on_disk (λ s. (ok tt, clean_up fs file.storage_path saved s))
    lift saved
    pure file

  unfoldable pub upload :
      FileSystem S → String → Inputs → String → String → List ℕ → Exec (Storage S) File
  unfolding place new_file mime_of
  upload fs root x user_id filename content =
      let mime = mime_of (fs.detect_content_type content) in
      unless (ltb max_file_size (length content)) (app err_file_too_large) (
        unless (not (allowed_mime mime)) (app err_unsupported_mime)
          (place fs content (new_file root x user_id filename mime content)))

  -- The answer of os.Remove, to which a file that is gone already is no error.
  abbrev pub removed : FileSystem S → Result (Unit {0}) → Result (Unit {0})
  removed fs (ok v) = ok v
  removed fs (err e) = if fs.is_not_exist e then ok tt else err (wrapped "remove file" e)

  unfoldable pub remove_file : FileSystem S → String → Exec (Storage S) (Unit {0})
  remove_file fs path = do r ← attempt (on_disk (fs.remove path)); lift (removed fs r)

  -- The file goes after its row.
  unfoldable pub delete : FileSystem S → Bool → String → String → Exec (Storage S) (Unit {0})
  unfolding remove_file
  delete fs tx user_id file_id = do
    path ← on_rows (run_guarded tx (delete_guard tx user_id file_id))
    if path == "" then pure tt else remove_file fs path
