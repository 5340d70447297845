-- ===== src/Errors.antt =====
-- pkg/errors/errors.go, internal/domain/errors.go, and the chain of wrapped errors that `errors.Is`
-- and `errors.As` walk.
pub mod Chain
use Prim.Native.String.{◌++◌}
use go_container_manager.Prelude.{ℕ, String}

pub record AppError : Type 0 where
  pub http_status : ℕ
  pub code : String
  pub message : String

abbrev pub new : ℕ → String → String → AppError
new http_status code message = record { http_status = http_status; code = code; message = message }

abbrev pub err_unauthorized : AppError
err_unauthorized = new 401 "UNAUTHORIZED" "Invalid credentials"

abbrev pub err_bad_request : AppError
err_bad_request = new 400 "BAD_REQUEST" "Invalid request"

abbrev pub err_forbidden : AppError
err_forbidden = new 403 "FORBIDDEN" "You do not have permission"

abbrev pub err_file_too_large : AppError
err_file_too_large = new 413 "FILE_TOO_LARGE" "File size exceeds 50MB limit"

abbrev pub err_unsupported_mime : AppError
err_unsupported_mime =
    new 415 "UNSUPPORTED_MIME_TYPE"
      "File type not allowed. Allowed: image/jpeg, image/png, text/csv, application/json, text/plain"

abbrev pub err_file_not_found : AppError
err_file_not_found = new 404 "FILE_NOT_FOUND" "File does not exist or has been deleted"

abbrev pub err_container_not_found : AppError
err_container_not_found = new 404 "CONTAINER_NOT_FOUND" "Container does not exist"

abbrev pub err_container_name_dup : AppError
err_container_name_dup =
    new 409 "CONTAINER_NAME_DUPLICATE" "Container name already exists for this user"

abbrev pub err_conflict : AppError
err_conflict = new 409 "CONFLICT" "Resource conflict"

abbrev pub err_job_not_found : AppError
err_job_not_found = new 404 "JOB_NOT_FOUND" "Job does not exist or has expired"

abbrev pub err_invalid_environment : AppError
err_invalid_environment = new 400 "INVALID_ENVIRONMENT" "Invalid environment specified"

abbrev pub err_service_unavailable : AppError
err_service_unavailable = new 503 "SERVICE_UNAVAILABLE" "Job queue is full, please retry later"

-- A Go `error`. `plain` is an error with a text and nothing else: errors.New, fmt.Errorf without %w,
-- and what a driver, Docker or the operating system returns; `wrapped` is fmt.Errorf("text: %w", e).
pub data Error : Type 0 where
  not_found forbidden conflict duplicate : Error
  app : AppError → Error
  pg_error : String → Error  -- *pgconn.PgError with its SQLSTATE
  no_rows : Error  -- pgx.ErrNoRows
  max_bytes : Error  -- *http.MaxBytesError
  invalid_token : Error
  plain : String → Error
  wrapped : String → Error → Error

-- `err.Error()`
unfoldable pub error_text : Error → String
error_text not_found = "not found"
error_text forbidden = "forbidden"
error_text conflict = "conflict"
error_text duplicate = "duplicate"
error_text (app e) = e.message
error_text (pg_error c) = "SQLSTATE " ++ c
error_text no_rows = "no rows in result set"
error_text max_bytes = "http: request body too large"
error_text invalid_token = "invalid or expired token"
error_text (plain t) = t
error_text (wrapped t e) = t ++ ": " ++ error_text e
