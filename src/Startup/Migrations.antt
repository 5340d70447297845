-- ===== src/Startup/Migrations.antt =====
-- app/handler.go: where findMigrationsPath finds the migrations.
use go_container_manager.Prelude.{
  ℕ, zero, suc, ◌<◌, String, Bool, false, ◌≡◌, ◌∙◌, refl, sym, ap, inl, inr, Bool-cases, Option,
  none, some, List, [], ◌∷◌, ◌==◌, eq_iff, arith, length, All, if◌then◌else◌,
}
use go_container_manager.Exec.{Result, ok, err}
use go_container_manager.FilePath.{join, dir, has_slash, unsplit}
use go_container_manager.FilePath.Names.{elements, shown, IsName}
use go_container_manager.FilePath.Dirs.{path, path-nonempty, elements-path, dir-path, join-path}
use go_container_manager.Docker.{Os, abs}

abbrev pub migrations : String
migrations = "migrations"

-- The loop, on fuel: `is_there` is os.Stat without an error.
unfoldable pub walk : ℕ → (String → Bool) → String → Option String
unfolding join dir
walk zero is_there d = none
walk (suc n) is_there d =
    let rest = walk n is_there (dir d) in
    if d == ""
    then some migrations
    else if is_there (join d migrations)
    then some (join d migrations)
    else if d == "/"
    then some migrations
    else rest

-- An error of filepath.Abs is passed over, and one of os.Getwd ends the search.
abbrev pub from_abs : Result String → Option String → Option String
from_abs (ok p) other = some p
from_abs (err _) other = other

abbrev pub from_wd : (String → Bool) → Result String → Option String
unfolding walk elements
from_wd is_there (ok wd) = walk (suc (length (elements wd))) is_there wd
from_wd is_there (err _) = some migrations

unfoldable pub find_migrations_path :
    {S : Type 0} → Os S → (String → String) → (String → Bool) → S → Option String
unfolding from_wd abs
find_migrations_path os getenv is_there s =
    let p = getenv "MIGRATIONS_PATH" in
    let found = from_wd is_there (os.getwd s) in
    if p == "" then found else from_abs (abs os p s).0 found

-- The folder's own, or else its nearest ancestor's that is there.
abbrev pub nearest : (String → Bool) → List String → String
nearest is_there [] =
    if is_there (path (migrations ∷ [])) then path (migrations ∷ []) else migrations
nearest is_there (e ∷ es) =
    let rest = nearest is_there es in
    if is_there (path (migrations ∷ e ∷ es)) then path (migrations ∷ e ∷ es) else rest

migrations-IsName : IsName migrations
unfolding has_slash
migrations-IsName = record { plain = refl; not_empty = refl; not_dot = refl; not_dots = refl }

path-root : path [] ≡ "/"
unfolding shown unsplit
path-root = refl

path-below : (e : String) (es : List String) → All IsName (e ∷ es) → path (e ∷ es) == "/" ≡ false
path-below e es h = elim (Bool-cases (path (e ∷ es) == "/")) [
  | inl same ↦
      let empty : e ∷ es ≡ [] =
        sym (elements-path (e ∷ es) h)
        ∙ ap elements ((eq_iff (path (e ∷ es)) "/").0 same ∙ sym path-root)
        ∙ elements-path [] tt in
      absurd (ground (arith, empty))
  | inr differ ↦ differ
]

walk-nearest :
    (is_there : String → Bool) (es : List String) (fuel : ℕ)
    → All IsName es
    → length es < fuel
    → walk fuel is_there (path es) ≡ some (nearest is_there es)
unfolding walk
walk-nearest is_there es zero h enough = absurd (omega (arith, enough))
walk-nearest is_there [] (suc fuel) h enough =
    rw (join-path [] migrations tt migrations-IsName)
      (ground (arith, path-nonempty [], eq_iff (path []) "", eq_iff (path []) "/", path-root))
walk-nearest is_there (e ∷ es) (suc fuel) h enough =
    rw (join-path (e ∷ es) migrations h migrations-IsName, dir-path e es h.0 h.1)
      (ground (
        arith,
        path-nonempty (e ∷ es),
        eq_iff (path (e ∷ es)) "",
        path-below e es h,
        walk-nearest is_there es fuel h.1,
      ))

-- Where MIGRATIONS_PATH is not set and the working directory is an absolute path of names, the
-- search of findMigrationsPath ends, within as many rounds as that path has elements and one more,
-- with the migrations folder of the working directory or of its nearest ancestor that has one, and
-- with the relative path where none has.
pub find_migrations_path_lem :
    {S : Type 0} (os : Os S) (getenv : String → String) (is_there : String → Bool) (s : S)
    (es : List String)
    → getenv "MIGRATIONS_PATH" ≡ ""
    → os.getwd s ≡ ok (path es)
    → All IsName es
    → find_migrations_path os getenv is_there s ≡ some (nearest is_there es)
unfolding find_migrations_path from_wd
find_migrations_path_lem os getenv is_there s es unset wd h =
    rw (unset, wd, elements-path es h) (walk-nearest is_there es (suc (length es)) h (omega arith))
