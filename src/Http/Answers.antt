-- ===== src/Http/Answers.antt =====
-- internal/handler/*_hdl.go: the answers that the handlers write.
use go_container_manager.Prelude.{ℕ, String, List, [], ◌∷◌, map, if◌then◌else◌}
use go_container_manager.Errors.{Error, new, err_file_too_large}
use go_container_manager.Errors.Chain.{as_max_bytes}
use go_container_manager.Exec.{Result, ok, err}
use go_container_manager.Domain.{Container, ContainerStatus, File, Job, JobType, JobStatus}
use go_container_manager.Http.{
  Value, text, number, texts, text_or_null, number_or_null, object, listing, no_content, Response,
  failed_with, respond_error,
}

abbrev pub status_text : ContainerStatus → String
status_text ContainerStatus.created = "Created"
status_text ContainerStatus.running = "Running"
status_text ContainerStatus.exited = "Exited"
status_text ContainerStatus.dead = "Dead"

abbrev pub type_text : JobType → String
type_text JobType.create_container = "CREATE_CONTAINER"
type_text JobType.start_container = "START_CONTAINER"
type_text JobType.stop_container = "STOP_CONTAINER"
type_text JobType.delete_container = "DELETE_CONTAINER"
type_text (JobType.other_type t) = t

abbrev pub job_status_text : JobStatus → String
job_status_text JobStatus.pending = "PENDING"
job_status_text JobStatus.running = "RUNNING"
job_status_text JobStatus.success = "SUCCESS"
job_status_text JobStatus.failed = "FAILED"

abbrev pub invalid_body : Response
invalid_body = failed_with (new 400 "BAD_REQUEST" "Invalid request body")

-- `if err != nil { RespondError(c, err); return }`
abbrev pub answer : {A : Type 0} → (A → Response) → Result A → Response
answer f (ok a) = f a
answer f (err e) = respond_error e

abbrev pub submitted : String → Job → Response
submitted message job = record {
  status = 202;
  body = object (("message", text message) ∷ ("job_id", text job.id) ∷ []);
}

abbrev pub listed_container : Container → List (String × Value)
listed_container c =
    ("container_id", text c.id)
    ∷ ("name", text c.name)
    ∷ ("environment", text c.environment)
    ∷ ("status", text (status_text c.status))
    ∷ ("created_at", number c.created_at)
    ∷ []

abbrev pub shown_container : Container → Response
shown_container c = record {
  status = 200;
  body = object (
      ("container_id", text c.id)
      ∷ ("name", text c.name)
      ∷ ("environment", text c.environment)
      ∷ ("command", texts c.command)
      ∷ ("status", text (status_text c.status))
      ∷ ("mount_path", text c.mount_path)
      ∷ ("created_at", number c.created_at)
      ∷ []);
}

abbrev pub shown_job : Job → Response
shown_job j = record {
  status = 200;
  body = object (
      ("job_id", text j.id)
      ∷ ("target_resource_id", text j.target_resource_id)
      ∷ ("type", text (type_text j.type))
      ∷ ("status", text (job_status_text j.status))
      ∷ ("error_message", text_or_null j.error_message)
      ∷ ("created_at", number j.created_at)
      ∷ ("completed_at", number_or_null j.completed_at)
      ∷ []);
}

abbrev pub listed_file : File → List (String × Value)
listed_file f =
    ("file_id", text f.id)
    ∷ ("filename", text f.original_filename)
    ∷ ("size_bytes", number f.size_bytes)
    ∷ ("created_at", number f.created_at)
    ∷ []

abbrev pub stored_file : File → Response
stored_file f = record { status = 201; body = object (listed_file f) }

abbrev pub page_of : {A : Type 0} → (A → List (String × Value)) → List A × ℕ → Response
page_of row (rows, total) = record { status = 200; body = listing (map row rows) total }

abbrev pub logged_in : String × ℕ → Response
logged_in (token, seconds) = record {
  status = 200;
  body = object (("token", text token) ∷ ("expires_in", number seconds) ∷ []);
}

abbrev pub deleted : Unit {0} → Response
deleted _ = record { status = 204; body = no_content }

-- The two errors of reading the upload.
abbrev pub unreadable : String → Error → Response
unreadable message e =
    if as_max_bytes e
    then respond_error (Error.app err_file_too_large)
    else failed_with (new 400 "BAD_REQUEST" message)
