-- ===== src/FilePath/Names.antt =====
-- Names without a slash, and where a path leads that ends in one.
use mathlib.Core.Path.{sym}
use Prim.Native.Char.{Char, code}
use Prim.Native.String.{◌++◌}
use Prim.Native.String.append
use go_container_manager.Prelude.{
  String, Bool, true, false, not, ◌⊎◌, ◌&&◌, ◌||◌, ◌≡◌, ◌≢◌, refl, List, [], ◌∷◌, arith, ◌==◌,
  eq_iff, if◌then◌else◌, eqb, some, inl, inr, Option-cases, Bool-cases, ◌∙◌, ap,
}
use go_container_manager.FilePath.{
  is_slash, onto_first, split_slash, clean_step, clean_elements, unsplit, is_rooted, clean, join,
  join3, last_nonempty, base, has_slash, last_dot, ext, trim_suffix,
}

abbrev pub snoc : List String → String → List String
snoc [] e = e ∷ []
snoc (d ∷ ds) e = d ∷ snoc ds e

pub has_slash-append : (s t : String) → has_slash (s ++ t) ≡ (has_slash s || has_slash t)
unfolding has_slash
has_slash-append String.[] t = rw (append.nil t) refl
has_slash-append (String.◌∷◌ c s) t = rw (append.cons c s t) (ground (arith, has_slash-append s t))

pub split_slash-name : (s : String) → has_slash s ≡ false → split_slash s ≡ s ∷ []
unfolding has_slash split_slash
split_slash-name String.[] h = refl
split_slash-name (String.◌∷◌ c s) h = ground (arith, split_slash-name s)

abbrev pub slash : Char
slash = "/"

pub slash_cons : (s : String) → "/" ++ s ≡ String.◌∷◌ slash s
slash_cons s = append.cons slash "" s ∙ ap (String.◌∷◌ slash) (append.nil s)

snoc-onto_first :
    (c : Char) (ds : List String) (e f : String)
    → onto_first c (snoc (f ∷ ds) e) ≡ snoc (onto_first c (f ∷ ds)) e
snoc-onto_first c ds e f = refl

split_slash-cases : (p : String) → (d : String) × (ds : List String) × (split_slash p ≡ d ∷ ds)
unfolding split_slash
split_slash-cases String.[] = ("", [], refl)
split_slash-cases (String.◌∷◌ c p) =
    let (d, ds, e) = split_slash-cases p in
    elim (Bool-cases (is_slash c)) [
      | inl h ↦ ("", d ∷ ds, ground arith)
      | inr h ↦ (String.◌∷◌ c d, ds, ground arith)
    ]

pub split_slash-append :
    (p s : String) → has_slash s ≡ false → split_slash (p ++ ("/" ++ s)) ≡ snoc (split_slash p) s
unfolding split_slash
split_slash-append String.[] s h =
    rw (append.nil ("/" ++ s), slash_cons s) (ground (arith, split_slash-name s h))
split_slash-append (String.◌∷◌ c p) s h =
    let (d, ds, e) = split_slash-cases p in
    rw (append.cons c p ("/" ++ s)) (ground (arith, split_slash-append p s h, e))

pub append_empty : (a : String) → a ++ "" ≡ a
append_empty String.[] = refl
append_empty (String.◌∷◌ c a) = append.cons c a "" ∙ ap (String.◌∷◌ c) (append_empty a)

pub append_assoc : (a b c : String) → (a ++ b) ++ c ≡ a ++ (b ++ c)
append_assoc String.[] b c = rw (append.nil b, append.nil (b ++ c)) refl
append_assoc (String.◌∷◌ x a) b c =
    rw (append.cons x a b, append.cons x (a ++ b) c, append.cons x a (b ++ c), append_assoc a b c)
      refl

clean_elements-snoc :
    (rooted : Bool) (done ds : List String) (e : String)
    → clean_elements rooted done (snoc ds e) ≡ clean_step rooted (clean_elements rooted done ds) e
unfolding clean_elements
clean_elements-snoc rooted done [] e = refl
clean_elements-snoc rooted done (d ∷ ds) e =
    clean_elements-snoc rooted (clean_step rooted done d) ds e

pub is_rooted-append : (a b : String) → a ≢ "" → is_rooted (a ++ b) ≡ is_rooted a
is_rooted-append String.[] b h = absurd (h refl)
is_rooted-append (String.◌∷◌ c a) b h = rw (append.cons c a b) refl

-- A path as `clean` prints it, and the elements that it prints, last first.
unfoldable pub shown : Bool → List String → String
shown rooted es =
    let body = unsplit es "" in if rooted then "/" ++ body else if body == "" then "." else body

unfoldable pub elements : String → List String
elements path = clean_elements (is_rooted path) [] (split_slash path)

pub clean-shown : (path : String) → clean path ≡ shown (is_rooted path) (elements path)
unfolding clean shown elements
clean-shown path = refl

-- An element that names something in its folder.
pub record IsName (s : String) : Type 0 where
  pub plain : has_slash s ≡ false
  pub not_empty : s == "" ≡ false
  pub not_dot : s == "." ≡ false
  pub not_dots : s == ".." ≡ false

pub elements-name : (p s : String) → p ≢ "" → IsName s → elements (p ++ ("/" ++ s)) ≡ s ∷ elements p
unfolding elements clean_step
elements-name p s h n =
    rw
      (
        is_rooted-append p ("/" ++ s) h,
        split_slash-append p s n.plain,
        clean_elements-snoc (is_rooted p) [] (split_slash p) s,
      )
      (ground (arith, n.not_empty, n.not_dot, n.not_dots))

pub regroup : (a b x : String) → a ++ ("/" ++ (b ++ x)) ≡ (a ++ ("/" ++ b)) ++ x
regroup a b x = sym (append_assoc a ("/" ++ b) x ∙ ap (λ t. a ++ t) (append_assoc "/" b x))

pub append_nonempty : (a b : String) → a ≢ "" → a ++ b ≢ ""
append_nonempty String.[] b h e = h refl
append_nonempty (String.◌∷◌ c a) b h e = cc (sym (append.cons c a b) ∙ e)

join3-clean : (a b c : String) → a ≢ "" → join3 a b c ≡ clean ((a ++ ("/" ++ b)) ++ ("/" ++ c))
unfolding join3
join3-clean a b c h = rw (← regroup a b ("/" ++ c)) (ground (arith, eq_iff a ""))

pub join-shown :
    (a b : String) → a ≢ "" → join a b ≡ shown (is_rooted a) (elements (a ++ ("/" ++ b)))
unfolding join
join-shown a b h =
    rw (← is_rooted-append a ("/" ++ b) h, ← clean-shown (a ++ ("/" ++ b)))
      (ground (arith, eq_iff a ""))

-- A name below a folder, and a name that a slash precedes.
pub join3-name :
    (a b s : String)
    → a ≢ ""
    → IsName s
    → join3 a b s ≡ shown (is_rooted a) (s ∷ elements (a ++ ("/" ++ b)))
join3-name a b s h n =
    let p = a ++ ("/" ++ b) in
    let q = append_nonempty a ("/" ++ b) h in
    rw
      (
        join3-clean a b s h,
        clean-shown (p ++ ("/" ++ s)),
        elements-name p s q n,
        is_rooted-append p ("/" ++ s) q,
        is_rooted-append a ("/" ++ b) h,
      )
      refl

pub elements-slash : (p : String) → p ≢ "" → elements (p ++ "/") ≡ elements p
unfolding elements clean_step has_slash
elements-slash p h =
    rw
      (
        is_rooted-append p "/" h,
        split_slash-append p "" refl,
        clean_elements-snoc (is_rooted p) [] (split_slash p) "",
      )
      refl

pub join3-slash_name :
    (a b s : String)
    → a ≢ ""
    → IsName s
    → join3 a b ("/" ++ s) ≡ shown (is_rooted a) (s ∷ elements (a ++ ("/" ++ b)))
join3-slash_name a b s h n =
    let p = a ++ ("/" ++ b) in
    let q = append_nonempty a ("/" ++ b) h in
    let r = append_nonempty p "/" q in
    rw
      (
        join3-clean a b ("/" ++ s) h,
        clean-shown (p ++ ("/" ++ ("/" ++ s))),
        ← append_assoc p "/" ("/" ++ s),
        elements-name (p ++ "/") s r n,
        elements-slash p q,
        is_rooted-append (p ++ "/") ("/" ++ s) r,
        is_rooted-append p "/" q,
        is_rooted-append a ("/" ++ b) h,
      )
      refl

abbrev all_plain : List String → Bool
all_plain [] = true
all_plain (d ∷ ds) = not (has_slash d) && all_plain ds

split_slash-all_plain : (p : String) → all_plain (split_slash p) ≡ true
unfolding split_slash has_slash
split_slash-all_plain String.[] = refl
split_slash-all_plain (String.◌∷◌ c p) =
    let (d, ds, e) = split_slash-cases p in ground (arith, split_slash-all_plain p, e)

last_nonempty-plain :
    (ds : List String) (s : String)
    → all_plain ds ≡ true
    → last_nonempty ds ≡ some s
    → (has_slash s ≡ false) × (s == "" ≡ false)
unfolding last_nonempty
last_nonempty-plain [] s h e = cc
last_nonempty-plain (d ∷ ds) s h e = elim (Option-cases (last_nonempty ds)) [
  | inl n ↦ ground arith
  | inr (t, q) ↦ ground (arith, last_nonempty-plain ds t)
]

pub base-plain : (p : String) → (base p ≡ "/") ⊎ (has_slash (base p) ≡ false)
unfolding base has_slash
base-plain p = elim (Bool-cases (p == "")) [
  | inl e ↦ inr (rw e refl)
  | inr e ↦ elim (Option-cases (last_nonempty (split_slash p))) [
    | inl n ↦ inl (rw (e, n) refl)
    | inr (s, q) ↦
        inr (rw (e, q) (last_nonempty-plain (split_slash p) s (split_slash-all_plain p) q).0)
  ]
]

last_dot-plain : (s t : String) → has_slash s ≡ false → last_dot s ≡ some t → has_slash t ≡ false
unfolding last_dot has_slash
last_dot-plain String.[] t h e = cc
last_dot-plain (String.◌∷◌ c s) t h e = elim (Option-cases (last_dot s)) [
  | inl n ↦ ground arith
  | inr (u, q) ↦ ground (arith, last_dot-plain s u)
]

pub ext-plain : (s : String) → has_slash s ≡ false → has_slash (ext s) ≡ false
unfolding ext has_slash
ext-plain s h = elim (Option-cases (last_dot s)) [
  | inl n ↦ rw n refl
  | inr (t, q) ↦ rw q (last_dot-plain s t h q)
]

pub trim_suffix-plain : (s t : String) → has_slash s ≡ false → has_slash (trim_suffix s t) ≡ false
unfolding trim_suffix has_slash
trim_suffix-plain String.[] t h = refl
trim_suffix-plain (String.◌∷◌ c s) t h = elim (Bool-cases ((String.◌∷◌ c s) == t)) [
  | inl e ↦ rw e refl
  | inr e ↦ rw e (ground (arith, trim_suffix-plain s t))
]

has_underscore : String → Bool
has_underscore String.[] = false
has_underscore (String.◌∷◌ c s) = eqb (code c) b'_' || has_underscore s

underscore_cons : (s : String) → "_" ++ s ≡ String.◌∷◌ "_" s
underscore_cons s = append.cons "_" "" s ∙ ap (String.◌∷◌ "_") (append.nil s)

has_underscore-append : (s t : String) → has_underscore (s ++ ("_" ++ t)) ≡ true
unfolding has_underscore
has_underscore-append String.[] t = rw (append.nil ("_" ++ t), underscore_cons t) refl
has_underscore-append (String.◌∷◌ c s) t =
    rw (append.cons c s ("_" ++ t)) (ground (arith, has_underscore-append s t))

differs : (s t : String) → has_underscore s ≡ true → has_underscore t ≡ false → s == t ≡ false
differs s t h k = elim (Bool-cases (s == t)) [
  | inl e ↦ cc (ap has_underscore ((eq_iff s t).0 e))
  | inr e ↦ e
]

-- A text with an underscore and no slash is a name.
pub underscore-IsName :
    (s t : String) → has_slash s ≡ false → has_slash t ≡ false → IsName (s ++ ("_" ++ t))
unfolding has_underscore has_slash
underscore-IsName s t h k =
    let u = has_underscore-append s t in
    record {
      plain = rw (has_slash-append s ("_" ++ t), underscore_cons t) (ground arith);
      not_empty = differs (s ++ ("_" ++ t)) "" u refl;
      not_dot = differs (s ++ ("_" ++ t)) "." u refl;
      not_dots = differs (s ++ ("_" ++ t)) ".." u refl;
    }
