-- ===== src/Http/Handlers.antt =====
-- internal/handler/*_hdl.go and router.go: each handler, and the router that puts the middleware before
-- the protected ones.
use go_container_manager.Prelude.{ℕ, String, Bool, Option, none, some, List, [], ◌∷◌, if◌then◌else◌}
use go_container_manager.Exec.{Result, ok, err, Exec}
use go_container_manager.Domain.{Job, File}
use go_container_manager.Db.{Db, ContainerRow}
use go_container_manager.Service.Containers
use go_container_manager.Service.Containers.{Config, Inputs, Server}
use go_container_manager.Service.Files
use go_container_manager.Service.Files.{FileSystem, Storage}
use go_container_manager.Service.Jobs
use go_container_manager.Auth
use go_container_manager.Auth.{Jwt, authenticate}
use go_container_manager.Http.{
  text, texts, object, Response, respond_error, atoi, default_query, Form, Request, CreateRequest,
  LoginRequest, is_protected,
}
use go_container_manager.Http.Answers.{
  invalid_body, answer, submitted, listed_container, shown_container, shown_job, listed_file,
  stored_file, page_of, logged_in, deleted, unreadable,
}

-- The database, the job channel, and the operating system.
pub record Site (S : Type 0) : Type 0 where
  pub db : Db
  pub queue : List Job
  pub outside : S

-- What NewRouter is given, the libraries, and what a request takes from outside the program.
pub record Setup (S : Type 0) : Type 0 where
  pub service : Config
  pub file_system : FileSystem S
  pub storage_root : String
  pub jwt : Jwt
  pub jwt_secret : String
  pub matches : String → String → Bool
  pub environments : List String

pub record Moment : Type 0 where
  pub inputs : Inputs
  pub file_inputs : Files.Inputs
  pub seconds : ℕ
  pub container_order : List ContainerRow → List ContainerRow
  pub file_order : List File → List File

module _ {S : Type 0} where
  abbrev pub by_server : {A : Type 0} → (A → Response) → Exec Server A → Site S → Response × Site S
  by_server f m s =
      let (r, t) = m (record { db = s.db; queue = s.queue }) in
      (answer f r, record s { db = t.db; queue = t.queue })

  abbrev pub by_files :
      {A : Type 0} → (A → Response) → Exec (Storage S) A → Site S → Response × Site S
  by_files f m s =
      let (r, t) = m (record { db = s.db; outside = s.outside }) in
      (answer f r, record s { db = t.db; outside = t.outside })

  abbrev pub by_db : {A : Type 0} → (A → Response) → Exec Db A → Site S → Response × Site S
  by_db f m s = let (r, db) = m s.db in (answer f r, record s { db = db })

  abbrev pub read_upload :
      Setup S → Moment → String → Form → Result (List ℕ) → Site S → Response × Site S
  read_upload su now user_id form (err e) s = (unreadable "Failed to read file" e, s)
  read_upload su now user_id form (ok content) s =
      by_files stored_file
        (Files.upload su.file_system su.storage_root now.file_inputs user_id form.filename content)
        s

  -- health_hdl.go
  abbrev pub show_health : Site S → Response × Site S
  show_health s = (record { status = 200; body = object (("status", text "UP") ∷ []) }, s)

  abbrev pub show_environments : Setup S → Site S → Response × Site S
  show_environments su s =
      (record { status = 200; body = object (("environments", texts su.environments) ∷ []) }, s)

  -- auth_hdl.go
  abbrev pub log_in : Setup S → Moment → Option LoginRequest → Site S → Response × Site S
  log_in su now none s = (invalid_body, s)
  log_in su now (some r) s =
      by_db logged_in (Auth.login su.jwt su.matches now.seconds su.jwt_secret r.username r.password)
        s

  -- file_hdl.go
  abbrev pub upload_file : Setup S → Moment → String → Result Form → Site S → Response × Site S
  upload_file su now user_id (err e) s = (unreadable "No file provided" e, s)
  upload_file su now user_id (ok form) s = read_upload su now user_id form form.content s

  abbrev pub list_files :
      Moment → String → Option String → Option String → Site S → Response × Site S
  list_files now user_id page limit s =
      by_db (page_of listed_file)
        (Files.list now.file_order user_id (atoi (default_query "1" page))
          (atoi (default_query "20" limit)))
        s

  abbrev pub delete_file : Setup S → String → String → Site S → Response × Site S
  delete_file su user_id id s =
      by_files deleted (Files.delete su.file_system su.service.tx_manager user_id id) s

  -- container_hdl.go
  abbrev pub create_container :
      Setup S → Moment → String → Option CreateRequest → Site S → Response × Site S
  create_container su now user_id none s = (invalid_body, s)
  create_container su now user_id (some r) s =
      by_server (submitted "Container creation job submitted")
        (Containers.create su.service now.inputs user_id r.name r.environment r.command) s

  abbrev pub list_containers :
      Moment → String → Option String → Option String → Site S → Response × Site S
  list_containers now user_id page limit s =
      by_db (page_of listed_container)
        (Containers.list now.container_order user_id (atoi (default_query "1" page))
          (atoi (default_query "20" limit)))
        s

  abbrev pub get_container : String → String → Site S → Response × Site S
  get_container user_id id s = by_db shown_container (Containers.get user_id id) s

  abbrev pub start_container : Setup S → Moment → String → String → Site S → Response × Site S
  start_container su now user_id id s =
      by_server (submitted "Container start job submitted")
        (Containers.start su.service now.inputs user_id id) s

  abbrev pub stop_container : Setup S → Moment → String → String → Site S → Response × Site S
  stop_container su now user_id id s =
      by_server (submitted "Container stop job submitted")
        (Containers.stop su.service now.inputs user_id id) s

  abbrev pub delete_container : Setup S → Moment → String → String → Site S → Response × Site S
  delete_container su now user_id id s =
      by_server (submitted "Container delete job submitted")
        (Containers.delete su.service now.inputs user_id id) s

  -- job_hdl.go
  abbrev pub get_job : String → String → Site S → Response × Site S
  get_job user_id id s = by_db shown_job (Jobs.get_job user_id id) s

  -- The routes of NewRouter, for the user that the middleware found.
  unfoldable pub handle : Setup S → Moment → String → Request → Site S → Response × Site S
  handle su now user_id Request.health s = show_health s
  handle su now user_id Request.environments s = show_environments su s
  handle su now user_id (Request.login r) s = log_in su now r s
  handle su now user_id (Request.upload form) s = upload_file su now user_id form s
  handle su now user_id (Request.list_files page limit) s = list_files now user_id page limit s
  handle su now user_id (Request.delete_file id) s = delete_file su user_id id s
  handle su now user_id (Request.create_container r) s = create_container su now user_id r s
  handle su now user_id (Request.list_containers page limit) s =
      list_containers now user_id page limit s
  handle su now user_id (Request.get_container id) s = get_container user_id id s
  handle su now user_id (Request.start_container id) s = start_container su now user_id id s
  handle su now user_id (Request.stop_container id) s = stop_container su now user_id id s
  handle su now user_id (Request.delete_container id) s = delete_container su now user_id id s
  handle su now user_id (Request.get_job id) s = get_job user_id id s

  abbrev pub admitted : Setup S → Moment → Result String → Request → Site S → Response × Site S
  admitted su now (err e) r s = (respond_error e, s)
  admitted su now (ok user_id) r s = handle su now user_id r s

  -- A request with its Authorization header, through the router.
  unfoldable pub serve : Setup S → Moment → String → Request → Site S → Response × Site S
  unfolding handle
  serve su now header r s =
      if is_protected r
      then admitted su now (authenticate su.jwt now.seconds su.jwt_secret header) r s
      else handle su now "" r s
