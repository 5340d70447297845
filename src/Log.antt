-- ===== src/Log.antt =====
-- pkg/logger/logger.go and internal/handler/middleware/logging.go: the level of the log, and the line
-- that is logged for each request.
use Prim.Native.Char.{code}
use Prim.Native.String.{◌++◌}
use go_container_manager.Prelude.{
  ℕ, ◌+◌, String, Bool, true, false, ◌&&◌, ◌||◌, Option, ◌==◌, eqb, leb, if◌then◌else◌,
}
use go_container_manager.Http.{Response}

-- The levels of log/slog.
pub data Level : Type 0 where
  debug info warn error : Level

-- unicode.ToLower on the characters that it makes a letter from a to z: the capitals, the capital I with
-- a dot and the Kelvin sign.
abbrev pub lower : ℕ → ℕ
lower n =
    if leb b'A' n && leb n b'Z'
    then n + 32
    else if eqb n 304
    then b'i'
    else if eqb n 8490
    then b'k'
    else n

-- strings.ToLower of a text is this word of small letters.
unfoldable pub lowers_to : String → String → Bool
lowers_to String.[] String.[] = true
lowers_to String.[] (String.◌∷◌ d word) = false
lowers_to (String.◌∷◌ c s) String.[] = false
lowers_to (String.◌∷◌ c s) (String.◌∷◌ d word) = eqb (lower (code c)) (code d) && lowers_to s word

unfoldable pub parse_level : String → Level
unfolding lowers_to
parse_level s =
    if lowers_to s "debug"
    then debug
    else if lowers_to s "warn" || lowers_to s "warning"
    then warn
    else if lowers_to s "error"
    then error
    else info

-- Init, as far as it decides: the level of the handler, from LOG_LEVEL.
unfoldable pub init : (String → String) → Level
unfolding parse_level
init getenv = parse_level (getenv "LOG_LEVEL")

pub record Line : Type 0 where
  pub level : Level
  pub method : String
  pub path : String
  pub status : ℕ
  pub latency : ℕ
  pub client_ip : String
  pub user_id : Option String

-- What gin has of a request, and how long it took.
pub record Call : Type 0 where
  pub method : String
  pub url_path : String
  pub raw_query : String
  pub client_ip : String
  pub latency : ℕ

abbrev pub request_level : ℕ → Level
request_level status = if leb 500 status then error else if leb 400 status then warn else info

abbrev pub with_query : String → String → String
with_query path raw_query = if raw_query == "" then path else path ++ "?" ++ raw_query

-- RequestLogger: what the rest of the chain answers, and the line about it. The user is there where
-- the authentication has set it.
unfoldable pub request_logger :
    {A : Type 0} → Call → Option String → Response × A → Line × Response × A
request_logger call user_id (r, a) = (
  record {
    level = request_level r.status;
    method = call.method;
    path = with_query call.url_path call.raw_query;
    status = r.status;
    latency = call.latency;
    client_ip = call.client_ip;
    user_id = user_id;
  },
  r,
  a,
)
