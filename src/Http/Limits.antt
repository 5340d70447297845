-- ===== src/Http/Limits.antt =====
-- internal/handler/middleware/max_bytes.go: the reader around the body of each request of the API, and
-- what gin reads through it.
use go_container_manager.Prelude.{
  ℕ, ◌*◌, ◌≤◌, ◌<◌, String, Bool, true, false, ◌≡◌, Option, none, some, List, inl, inr, arith,
  length, take, length-take, leb, if◌then◌else◌, refl,
}
use go_container_manager.Errors.{Error}
use go_container_manager.Exec.{Result, ok, Result-cases, is_ok}
use go_container_manager.Service.Files.{max_file_size}
use go_container_manager.Auth.{authenticate}
use go_container_manager.Http.{Request, Form, LoginRequest, CreateRequest, respond_error}
use go_container_manager.Http.Handlers.{Site, Setup, Moment, handle, serve}
use go_container_manager.Http.Access.{serve_unauthorized}

-- An io.Reader: the bytes that it gives, and the error that it then ends with, if it is not io.EOF.
pub record Reader : Type 0 where
  pub bytes : List ℕ
  pub failure : Option Error

-- http.MaxBytesReader
abbrev pub max_bytes_reader : ℕ → Reader → Reader
max_bytes_reader limit r =
    if leb (length r.bytes) limit
    then r
    else record { bytes = take limit r.bytes; failure = some Error.max_bytes }

-- MaxBytes, for a body that may be nil.
unfoldable pub max_bytes : ℕ → Option Reader → Option Reader
max_bytes limit none = none
max_bytes limit (some r) = some (max_bytes_reader limit r)

abbrev pub max_request_body_bytes : ℕ
max_request_body_bytes = 50 * 1024 * 1024

abbrev pub max_bytes_default : Option Reader → Option Reader
max_bytes_default = max_bytes max_request_body_bytes

-- What net/http and gin make of a body: FormFile, and ShouldBindJSON of Login and Create.
pub record Gin : Type 0 where
  pub form_file : Option Reader → Result Form
  pub bind_login : Option Reader → Option LoginRequest
  pub bind_create : Option Reader → Option CreateRequest

-- A nil body is no form, and a form holds more than the content of its file.
pub record IsMultipart (gin : Gin) : Type 0 where
  pub no_body : is_ok (gin.form_file none) ≡ false
  pub holds :
      (r : Reader) (form : Form) (content : List ℕ)
      → gin.form_file (some r) ≡ ok form
      → form.content ≡ ok content
      → length content < length r.bytes

abbrev pub reads_body : Request → Bool
reads_body (Request.login _) = true
reads_body (Request.upload _) = true
reads_body (Request.create_container _) = true
reads_body _ = false

-- The requests with a body that is read, and the others.
pub data Sent : Type 0 where
  login_sent upload_sent create_sent : Option Reader → Sent
  bodiless : (r : Request) → reads_body r ≡ false → Sent

-- What the handlers then read.
unfoldable pub received : Gin → Sent → Request
received gin (login_sent body) = Request.login (gin.bind_login (max_bytes_default body))
received gin (upload_sent body) = Request.upload (gin.form_file (max_bytes_default body))
received gin (create_sent body) =
    Request.create_container (gin.bind_create (max_bytes_default body))
received gin (bodiless r _) = r

length-max_bytes_reader : (limit : ℕ) (r : Reader) → length (max_bytes_reader limit r).bytes ≤ limit
length-max_bytes_reader limit r = ground (arith, length-take limit r.bytes)

-- A file that was read through the limit.
limited :
    (gin : Gin) (body : Option Reader) (form : Form) (content : List ℕ)
    → IsMultipart gin
    → gin.form_file (max_bytes_default body) ≡ ok form
    → form.content ≡ ok content
    → length content < max_file_size
unfolding max_bytes
limited gin none form content m f c = absurd (ground (arith, m.no_body))
limited gin (some r) form content m f c = omega (
  arith,
  m.holds (max_bytes_reader max_request_body_bytes r) form content f c,
  length-max_bytes_reader max_request_body_bytes r,
)

module _ {S : Type 0} (gin : Gin) (su : Setup S) (now : Moment) (header : String)
    (m : IsMultipart gin) (body : Option Reader) (s : Site S) where
  -- Where a nil body is no form, and the content of a form's file is shorter than the body that
  -- was read: an upload through the router that is answered 201 had a file of fewer than 50MB,
  -- however long its body was.
  pub upload_below_limit :
      (serve su now header (received gin (upload_sent body)) s).0.status ≡ 201
      → (form : Form) × (content : List ℕ) × (gin.form_file (max_bytes_default body) ≡ ok form)
        × (form.content ≡ ok content)
        × (length content < max_file_size)
  unfolding serve handle received respond_error
  upload_below_limit e =
      elim (Result-cases (authenticate su.jwt now.seconds su.jwt_secret header)) [
        | inr (x, a) ↦ absurd (
            ground (
              arith,
              serve_unauthorized su now header (received gin (upload_sent body)) s refl (rw a refl),
            ))
        | inl (user, a) ↦ elim (Result-cases (gin.form_file (max_bytes_default body))) [
          | inr (x, f) ↦ absurd (ground arith)
          | inl (form, f) ↦ elim (Result-cases form.content) [
            | inr (x, c) ↦ absurd (ground arith)
            | inl (content, c) ↦ (form, content, f, c, limited gin body form content m f c)
          ]
        ]
      ]
