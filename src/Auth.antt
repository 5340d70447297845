-- ===== src/Auth.antt =====
-- internal/service/auth_svc.go, pkg/jwt/jwt.go and internal/handler/middleware/auth.go. The jwt library
-- and bcrypt are parameters.
pub mod Tokens
use Prim.Native.Char.{code}
use go_container_manager.Prelude.{
  ℕ, ◌+◌, ◌*◌, String, Bool, true, false, not, ◌&&◌, ◌||◌, Option, none, some, ◌==◌, eqb,
  if◌then◌else◌,
}
use go_container_manager.Errors.{Error, AppError, app, new, invalid_token, err_unauthorized}
use go_container_manager.Exec.{Result, ok, err, Exec, lift, attempt, ◌>>=◌}
use go_container_manager.Domain.{User, second}
use go_container_manager.Db.{Db}
use go_container_manager.Repo.Users

-- jwt.MapClaims with "sub", "exp" and "iat", the last two in seconds.
pub record Claims : Type 0 where
  pub sub : String
  pub exp : ℕ
  pub iat : ℕ

-- What jwt.Parse returns: whether the claims are MapClaims, `token.Valid` and `GetSubject()`.
pub record Token : Type 0 where
  pub is_map_claims : Bool
  pub valid : Bool
  pub subject : Result String

-- `sign` is NewWithClaims(SigningMethodHS256, …).SignedString. `parse` is Parse at a time; it calls its
-- function with whether the token's method is HMAC and verifies with the key that comes back.
pub record Jwt : Type 0 where
  pub sign : Claims → String → Result String
  pub parse : ℕ → String → (Bool → Result String) → Result Token

unfoldable pub generate_token : Jwt → ℕ → String → String → ℕ → Result String
generate_token jwt now user_id secret expires_in =
    jwt.sign (record { sub = user_id; exp = now + expires_in; iat = now }) secret

abbrev pub key : String → Bool → Result String
key secret true = ok secret
key secret false = err invalid_token

abbrev pub or_invalid : Result String → Result String
or_invalid (ok sub) = ok sub
or_invalid (err e) = err invalid_token

abbrev pub subject_of : Result Token → Result String
subject_of (err e) = err invalid_token
subject_of (ok t) =
    if not t.is_map_claims || not t.valid then err invalid_token else or_invalid t.subject

unfoldable pub validate_token : Jwt → ℕ → String → String → Result String
validate_token jwt now text secret = subject_of (jwt.parse now text (key secret))

-- An hour, in seconds.
abbrev pub expires_in : ℕ
expires_in = 3600

-- `hash` and `password` match: bcrypt.CompareHashAndPassword(…) == nil
abbrev pub checked : (String → String → Bool) → String → Result User → Result User
checked matches password (err e) = err (app err_unauthorized)
checked matches password (ok u) =
    if matches u.password_hash password then ok u else err (app err_unauthorized)

unfoldable pub login :
    Jwt → (String → String → Bool) → ℕ → String → String → String → Exec Db (String × ℕ)
unfolding generate_token
login jwt matches now secret username password = do
  found ← attempt (Users.find_by_username username)
  user ← lift (checked matches password found)
  token ← lift (generate_token jwt now user.id secret expires_in)
  lift (ok (token, expires_in))

-- strings.SplitN(s, " ", 2), where it has two parts
unfoldable pub split_space : String → Option (String × String)
split_space String.[] = none
split_space (String.◌∷◌ c s) =
    if eqb (code c) b' '
    then some ("", s)
    else elim (split_space s) [ some (a, b) ↦ some (String.◌∷◌ c a, b) | none ↦ none ]

abbrev pub bearer : Option (String × String) → Option String
bearer none = none
bearer (some (scheme, token)) = if scheme == "Bearer" then some token else none

abbrev pub missing_header : AppError
missing_header = new 401 "UNAUTHORIZED" "Missing authorization header"

abbrev pub bad_header : AppError
bad_header = new 401 "UNAUTHORIZED" "Invalid authorization header format"

abbrev pub bad_token : AppError
bad_token = new 401 "UNAUTHORIZED" "Invalid or expired token"

abbrev pub or_bad_token : Result String → Result String
or_bad_token (ok user_id) = ok user_id
or_bad_token (err e) = err (app bad_token)

abbrev pub token_user : Jwt → ℕ → String → Option String → Result String
token_user jwt now secret none = err (app bad_header)
token_user jwt now secret (some token) = or_bad_token (validate_token jwt now token secret)

-- AuthMiddleware: the user, or the answer with which it aborts. A missing header reads as "".
unfoldable pub authenticate : Jwt → ℕ → String → String → Result String
unfolding validate_token split_space
authenticate jwt now secret header =
    if header == ""
    then err (app missing_header)
    else token_user jwt now secret (bearer (split_space header))
