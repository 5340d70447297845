-- ===== src/Auth/Tokens.antt =====
-- A token from Login, as the middleware reads it.
use mathlib.Core.Path.{sym}
use Prim.Native.String.{◌++◌}
use Prim.Native.String.append
use go_container_manager.Prelude.{
  ℕ, ◌+◌, ◌<◌, String, Bool, true, false, ◌≡◌, refl, ap, ◌∙◌, inl, inr, arith, find, some,
  Option-cases, Bool-cases, ◌==◌, eq_iff,
}
use go_container_manager.Exec.{ok}
use go_container_manager.Domain.{User}
use go_container_manager.Db.{Db, statement}
use go_container_manager.Repo.Users
use go_container_manager.Auth.{
  Claims, Jwt, key, generate_token, validate_token, login, split_space, authenticate, expires_in,
}

-- What the jwt library documents of HS256: a token that was signed with a key parses with that key,
-- before it expires, to the claims that were signed.
pub record IsFaithful (jwt : Jwt) : Type 0 where
  pub parse-sign :
      (c : Claims) (secret token : String) (now : ℕ)
      → jwt.sign c secret ≡ ok token
      → now < c.exp
      → jwt.parse now token (key secret)
        ≡ ok (record { is_map_claims = true; valid = true; subject = ok c.sub })

pub split_space-bearer :
    (token : String) → split_space ("Bearer " ++ token) ≡ some ("Bearer", token)
unfolding split_space
split_space-bearer token =
    rw
      (
        append.cons "B" "earer " token,
        append.cons "e" "arer " token,
        append.cons "a" "rer " token,
        append.cons "r" "er " token,
        append.cons "e" "r " token,
        append.cons "r" " " token,
        append.cons " " "" token,
        append.nil token,
      )
      refl

pub bearer-not_empty : (token : String) → ("Bearer " ++ token) == "" ≡ false
unfolding split_space
bearer-not_empty token = elim (Bool-cases (("Bearer " ++ token) == "")) [
  | inl e ↦
      cc (sym (split_space-bearer token) ∙ ap split_space ((eq_iff ("Bearer " ++ token) "").0 e))
  | inr e ↦ e
]

-- Where the jwt library verifies and reads back what it signed, a token that Login returned was
-- given for the password of the first user of that name, and until an hour later the middleware
-- reads that user's id from it.
pub login-authenticate :
    (jwt : Jwt) (matches : String → String → Bool) (now later : ℕ)
    (secret username password token : String) (seconds : ℕ) (db : Db)
    → IsFaithful jwt
    → (login jwt matches now secret username password db).0 ≡ ok (token, seconds)
    → later < now + 3600
    → (u : User) × (find (Users.has_username username) db.users ≡ some u)
      × (matches u.password_hash password ≡ true)
      × (authenticate jwt later secret ("Bearer " ++ token) ≡ ok u.id)
unfolding login generate_token Users.find_by_username statement authenticate validate_token
login-authenticate jwt matches now later secret username password token seconds db f h early =
    elim (Option-cases (find (Users.has_username username) db.users)) [
      | inl n ↦ absurd (ground arith)
      | inr (u, e) ↦
          let c : Claims = record { sub = u.id; exp = now + expires_in; iat = now } in
          let parsed = f.parse-sign c secret token later (ground arith) early in
          (u, e, ground arith, rw (bearer-not_empty token, split_space-bearer token, parsed) refl)
    ]
