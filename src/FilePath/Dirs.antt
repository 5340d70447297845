-- ===== src/FilePath/Dirs.antt =====
-- filepath.Dir and filepath.Join on absolute paths whose elements are names.
use mathlib.Core.Path.{sym}
use Prim.Native.String.{◌++◌}
use Prim.Native.String.append
use go_container_manager.Prelude.{
  String, true, false, ◌≡◌, ◌≢◌, refl, List, [], ◌∷◌, arith, ◌==◌, eq_iff, ◌∙◌, ap, All,
}
use go_container_manager.FilePath.{
  split_slash, clean_step, clean_elements, unsplit, is_rooted, clean, join, has_slash, up_to_slash,
  dir,
}
use go_container_manager.FilePath.Names.{
  shown, elements, IsName, has_slash-append, split_slash-append, slash_cons, append_assoc,
  append_nonempty, clean-shown, elements-name, elements-slash, is_rooted-append, join-shown,
  regroup,
}

-- The absolute path with these elements, last first.
abbrev pub path : List String → String
path es = shown true es

unsplit-cons :
    (e : String) (es : List String) (tail : String)
    → tail == "" ≡ false
    → unsplit (e ∷ es) tail ≡ unsplit es (e ++ ("/" ++ tail))
unfolding unsplit
unsplit-cons e es tail h = rw h refl

unsplit-tail :
    (e : String) (es : List String) (tail : String)
    → All IsName (e ∷ es)
    → tail == "" ≡ false
    → unsplit (e ∷ es) tail ≡ unsplit (e ∷ es) "" ++ ("/" ++ tail)
unfolding unsplit
unsplit-tail e [] tail n h = ground arith
unsplit-tail e (d ∷ es) tail n h =
    let more = e ++ ("/" ++ tail) in
    let nonempty : more == "" ≡ false =
      ground (arith, n.0.not_empty, eq_iff e "", eq_iff more "", append_nonempty e ("/" ++ tail)) in
    let long = unsplit-tail d es more n.1 nonempty in
    let short = unsplit-tail d es e n.1 n.0.not_empty in
    unsplit-cons e (d ∷ es) tail h
    ∙ long
    ∙ regroup (unsplit (d ∷ es) "") e ("/" ++ tail)
    ∙ ap (λ x. x ++ ("/" ++ tail)) (sym short)

path-two :
    (e d : String) (es : List String)
    → All IsName (e ∷ d ∷ es)
    → path (e ∷ d ∷ es) ≡ path (d ∷ es) ++ ("/" ++ e)
unfolding shown unsplit
path-two e d es n =
    ap (λ x. "/" ++ x) (unsplit-tail d es e n.1 n.0.not_empty)
    ∙ sym (append_assoc "/" (unsplit (d ∷ es) "") ("/" ++ e))

path-one : (e : String) → path (e ∷ []) ≡ "/" ++ e
unfolding shown unsplit
path-one e = refl

pub path-nonempty : (es : List String) → path es ≢ ""
unfolding shown
path-nonempty es = append_nonempty "/" (unsplit es "") (λ h. ground (arith, eq_iff "/" ""))

path-is_rooted : (es : List String) → is_rooted (path es) ≡ true
unfolding shown
path-is_rooted es = rw (slash_cons (unsplit es "")) refl

up_to_slash-name : (p e : String) → has_slash e ≡ false → up_to_slash (p ++ ("/" ++ e)) ≡ p ++ "/"
unfolding up_to_slash has_slash
up_to_slash-name String.[] e h =
    rw (append.nil ("/" ++ e), append.nil "/", slash_cons e) (ground arith)
up_to_slash-name (String.◌∷◌ c p) e h =
    let slashed : has_slash ("/" ++ e) ≡ true = rw (slash_cons e) refl in
    rw (append.cons c p ("/" ++ e), append.cons c p "/")
      (ground (arith, slashed, has_slash-append p ("/" ++ e), up_to_slash-name p e h))

elements-one : (e : String) → IsName e → elements ("/" ++ e) ≡ e ∷ []
unfolding elements clean_elements clean_step split_slash
elements-one e n =
    let parts : split_slash ("/" ++ e) ≡ "" ∷ e ∷ [] =
      ap split_slash (sym (append.nil ("/" ++ e))) ∙ split_slash-append "" e n.plain in
    rw parts (rw (slash_cons e) (ground (arith, n.not_empty, n.not_dot, n.not_dots)))

pub elements-path : (es : List String) → All IsName es → elements (path es) ≡ es
unfolding elements clean_elements clean_step split_slash shown unsplit
elements-path [] h = refl
elements-path (e ∷ []) h = rw (path-one e) (elements-one e h.0)
elements-path (e ∷ d ∷ es) h =
    rw (path-two e d es h, elements-name (path (d ∷ es)) e (path-nonempty (d ∷ es)) h.0)
      (ap (λ x. e ∷ x) (elements-path (d ∷ es) h.1))

root : clean "/" ≡ path []
unfolding clean clean_elements clean_step split_slash shown unsplit
root = refl

-- Dir drops the last element.
pub dir-path :
    (e : String) (es : List String) → IsName e → All IsName es → dir (path (e ∷ es)) ≡ path es
unfolding dir
dir-path e [] n h =
    let up : up_to_slash (path (e ∷ [])) ≡ "/" =
      ap up_to_slash (path-one e ∙ sym (append.nil ("/" ++ e))) ∙ up_to_slash-name "" e n.plain in
    rw up root
dir-path e (d ∷ es) n h =
    let p = path (d ∷ es) in
    rw
      (
        path-two e d es (n, h),
        up_to_slash-name p e n.plain,
        clean-shown (p ++ "/"),
        elements-slash p (path-nonempty (d ∷ es)),
        elements-path (d ∷ es) h,
        is_rooted-append p "/" (path-nonempty (d ∷ es)),
        path-is_rooted (d ∷ es),
      )
      refl

-- Join adds one.
pub join-path :
    (es : List String) (s : String) → All IsName es → IsName s → join (path es) s ≡ path (s ∷ es)
join-path es s h n =
    let p = path es in
    rw
      (
        join-shown p s (path-nonempty es),
        elements-name p s (path-nonempty es) n,
        elements-path es h,
        path-is_rooted es,
      )
      refl
