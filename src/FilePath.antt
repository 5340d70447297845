-- ===== src/FilePath.antt =====
-- What the program uses of Go's path/filepath on Unix: Join, Dir, Base, Ext, and
-- strings.TrimSuffix, over texts.
pub mod Names
pub mod Dirs
use Prim.Native.Char.{Char, code}
use Prim.Native.String.{◌++◌}
use go_container_manager.Prelude.{
  String, Bool, false, not, ◌&&◌, ◌||◌, Option, none, some, List, [], ◌∷◌, ◌==◌, eqb, if◌then◌else◌,
}

abbrev pub is_slash : Char → Bool
is_slash c = eqb (code c) b'/'

abbrev pub is_dot : Char → Bool
is_dot c = eqb (code c) b'.'

abbrev pub onto_first : Char → List String → List String
onto_first c [] = (String.◌∷◌ c String.[]) ∷ []
onto_first c (s ∷ ss) = (String.◌∷◌ c s) ∷ ss

-- The texts between the slashes.
unfoldable pub split_slash : String → List String
split_slash String.[] = "" ∷ []
split_slash (String.◌∷◌ c s) =
    let rest = split_slash s in if is_slash c then "" ∷ rest else onto_first c rest

-- One element of a path, onto the elements before it, last first. Above the root there is the root.
unfoldable pub clean_step : Bool → List String → String → List String
clean_step rooted done e =
    if e == "" || e == "."
    then done
    else if e == ".."
    then elim done [
      | [] ↦ if rooted then [] else ".." ∷ []
      | d ∷ ds ↦ if d == ".." then ".." ∷ d ∷ ds else ds
    ]
    else e ∷ done

unfoldable pub clean_elements : Bool → List String → List String → List String
unfolding clean_step
clean_elements rooted done [] = done
clean_elements rooted done (e ∷ es) = clean_elements rooted (clean_step rooted done e) es

-- The elements, given last first, with slashes between them.
unfoldable pub unsplit : List String → String → String
unsplit [] tail = tail
unsplit (e ∷ es) tail = unsplit es (if tail == "" then e else e ++ "/" ++ tail)

abbrev pub is_rooted : String → Bool
is_rooted String.[] = false
is_rooted (String.◌∷◌ c s) = is_slash c

unfoldable pub clean : String → String
unfolding split_slash clean_elements unsplit
clean path =
    let body = unsplit (clean_elements (is_rooted path) [] (split_slash path)) "" in
    if is_rooted path then "/" ++ body else if body == "" then "." else body

-- filepath.Join(a, b): empty elements are left out.
unfoldable pub join : String → String → String
unfolding clean
join a b = if a == "" then (if b == "" then "" else clean b) else clean (a ++ "/" ++ b)

-- filepath.Join(a, b, c)
unfoldable pub join3 : String → String → String → String
unfolding clean join
join3 a b c = if a == "" then join b c else clean (a ++ "/" ++ b ++ "/" ++ c)

unfoldable pub last_nonempty : List String → Option String
last_nonempty [] = none
last_nonempty (s ∷ ss) = elim (last_nonempty ss) [
  | some t ↦ some t
  | none ↦ if s == "" then none else some s
]

abbrev pub or_slash : Option String → String
or_slash none = "/"
or_slash (some s) = s

-- filepath.Base: the last element, trailing slashes aside.
unfoldable pub base : String → String
unfolding split_slash last_nonempty
base path = if path == "" then "." else or_slash (last_nonempty (split_slash path))

unfoldable pub has_slash : String → Bool
has_slash String.[] = false
has_slash (String.◌∷◌ c s) = is_slash c || has_slash s

-- The text up to its last slash and with it.
unfoldable pub up_to_slash : String → String
unfolding has_slash
up_to_slash String.[] = ""
up_to_slash (String.◌∷◌ c s) =
    let rest = up_to_slash s in
    if has_slash s then String.◌∷◌ c rest else if is_slash c then "/" else ""

-- filepath.Dir
unfoldable pub dir : String → String
unfolding clean up_to_slash
dir path = clean (up_to_slash path)

-- The text from its last dot on, where no slash comes after that dot.
unfoldable pub last_dot : String → Option String
unfolding has_slash
last_dot String.[] = none
last_dot (String.◌∷◌ c s) = elim (last_dot s) [
  | some t ↦ some t
  | none ↦ if is_dot c && not (has_slash s) then some (String.◌∷◌ c s) else none
]

abbrev pub or_empty : Option String → String
or_empty none = ""
or_empty (some s) = s

-- filepath.Ext
unfoldable pub ext : String → String
unfolding last_dot
ext path = or_empty (last_dot path)

-- strings.TrimSuffix
unfoldable pub trim_suffix : String → String → String
trim_suffix String.[] suffix = ""
trim_suffix (String.◌∷◌ c s) suffix =
    let rest = trim_suffix s suffix in if (String.◌∷◌ c s) == suffix then "" else String.◌∷◌ c rest
