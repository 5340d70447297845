-- ===== src/Tests/Bodies.antt =====
-- An upload through the limited reader. A body is one byte of a boundary and the file.
use go_container_manager.Prelude.{
  ℕ, ◌<◌, ◌≡◌, Option, none, some, refl, List, [], ◌∷◌, arith, length, count,
}
use go_container_manager.Errors.{plain}
use go_container_manager.Exec.{Result, ok, err}
use go_container_manager.Db.{statement}
use go_container_manager.Repo.Files as Rows
use go_container_manager.Service.Files.{upload, place, new_file, mime_of, max_file_size}
use go_container_manager.Auth.{authenticate, validate_token, split_space}
use go_container_manager.Http.{Form}
use go_container_manager.Http.Handlers.{serve, handle}
use go_container_manager.Http.Limits.{
  Reader, Gin, IsMultipart, received, max_bytes, max_bytes_default, upload_below_limit,
}
use go_container_manager.Tests.Access.{setup, present, site}

abbrev parts : List ℕ → Result Form
parts [] = err (plain "unexpected EOF")
parts (b ∷ bytes) = ok (record { filename = "a.txt"; content = ok bytes })

abbrev form_of : Option Reader → Result Form
form_of none = err (plain "missing form body")
form_of (some r) = parts r.bytes

abbrev gin : Gin
gin = record { form_file = form_of; bind_login = λ body. none; bind_create = λ body. none }

parts-holds :
    (bytes : List ℕ) (form : Form) (content : List ℕ)
    → parts bytes ≡ ok form
    → form.content ≡ ok content
    → length content < length bytes
parts-holds [] form content f c = absurd (ground arith)
parts-holds (b ∷ bytes) form content f c = ground arith

gin-IsMultipart : IsMultipart gin
gin-IsMultipart = record { no_body = refl; holds = λ r. parts-holds r.bytes }

abbrev body : Option Reader
body = some (record { bytes = 45 ∷ 65 ∷ []; failure = none })

upload_below_limit_example :
    (form : Form) × (content : List ℕ) × (gin.form_file (max_bytes_default body) ≡ ok form)
    × (form.content ≡ ok content)
    × (length content < max_file_size)
unfolding serve handle received max_bytes authenticate split_space validate_token upload place
    new_file mime_of Rows.save statement count
upload_below_limit_example =
    upload_below_limit gin setup present "Bearer alice" gin-IsMultipart body site refl
