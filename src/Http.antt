-- ===== src/Http.antt =====
-- internal/handler: the answers, and what a handler reads of a request.
pub mod Answers
pub mod Handlers
pub mod Access
pub mod Limits
use Prim.Native.Char.{code}
use go_container_manager.Prelude.{
  ℕ, ◌+◌, ◌-◌, ◌*◌, ◌^◌, String, Bool, true, false, not, ◌&&◌, ◌||◌, Option, none, some, List, eqb,
  leb, ltb, ◌==◌, if◌then◌else◌,
}
use go_container_manager.Errors.{AppError, Error, new, err_file_too_large}
use go_container_manager.Errors.Chain.{as_app_error, as_max_bytes}
use go_container_manager.Exec.{Result}
use go_container_manager.Repo.Paging.{word}

-- A value in a gin.H.
pub data Value : Type 0 where
  text : String → Value
  number : ℕ → Value
  texts : List String → Value
  text_or_null : Option String → Value
  number_or_null : Option ℕ → Value

-- The bodies that the handlers write.
pub data Body : Type 0 where
  object : List (String × Value) → Body
  listing : List (List (String × Value)) → ℕ → Body
  failure : String → String → Body
  no_content : Body

pub record Response : Type 0 where
  pub status : ℕ
  pub body : Body

abbrev pub failed_with : AppError → Response
failed_with e = record { status = e.http_status; body = failure e.code e.message }

abbrev pub internal_error : AppError
internal_error = new 500 "INTERNAL_ERROR" "Internal server error"

abbrev pub error_of : Option AppError → Bool → AppError
error_of (some e) _ = e
error_of none true = err_file_too_large
error_of none false = internal_error

-- RespondError
unfoldable pub respond_error : Error → Response
respond_error e = failed_with (error_of (as_app_error e) (as_max_bytes e))

-- strconv.Atoi with its error ignored: 0 for a text that is no number, the nearest int for one that
-- is out of range. An int is its bit pattern.
abbrev pub max_uint : ℕ
max_uint = word - 1

unfoldable pub digits : ℕ → String → Option ℕ
digits n String.[] = some n
digits n (String.◌∷◌ c s) =
    let m = n * 10 + (code c - b'0') in
    let rest = digits m s in
    if not (leb b'0' (code c) && leb (code c) b'9')
    then none
    else if ltb max_uint m
    then some max_uint
    else rest

abbrev pub positive : Option ℕ → ℕ
positive none = 0
positive (some n) = if leb (2 ^ 63) n then 2 ^ 63 - 1 else n

abbrev pub negative : Option ℕ → ℕ
negative none = 0
negative (some n) = if eqb n 0 then 0 else if ltb (2 ^ 63) n then 2 ^ 63 else word - n

abbrev pub unsigned : String → Option ℕ
unsigned s = if s == "" then none else digits 0 s

unfoldable pub atoi : String → ℕ
unfolding digits
atoi String.[] = 0
atoi (String.◌∷◌ c s) =
    if eqb (code c) b'-'
    then negative (unsigned s)
    else if eqb (code c) b'+'
    then positive (unsigned s)
    else positive (digits 0 (String.◌∷◌ c s))

-- c.DefaultQuery(…): the text, or the default where the query has none.
abbrev pub default_query : String → Option String → String
default_query default none = default
default_query default (some s) = s

pub record CreateRequest : Type 0 where
  pub name : String
  pub environment : String
  pub command : List String

pub record LoginRequest : Type 0 where
  pub username : String
  pub password : String

-- The outcome of FormFile: the file's name and the outcome of ReadAll.
pub record Form : Type 0 where
  pub filename : String
  pub content : Result (List ℕ)

-- The routes of NewRouter, with what gin reads of the request for them: a path parameter, queries, and
-- a bound body, which is `none` where ShouldBindJSON fails.
pub data Request : Type 0 where
  health environments : Request
  login : Option LoginRequest → Request
  upload : Result Form → Request
  list_files list_containers : Option String → Option String → Request
  delete_file get_container start_container stop_container delete_container get_job :
      String → Request
  create_container : Option CreateRequest → Request

-- The routes of the group that uses AuthMiddleware.
abbrev pub is_protected : Request → Bool
is_protected health = false
is_protected environments = false
is_protected (login _) = false
is_protected _ = true
