-- ===== src/Service/Files/Paths.antt =====
-- Where an uploaded file is stored.
use Prim.Native.String.{◌++◌}
use Prim.Native.String.append
use go_container_manager.Prelude.{
  String, false, ◌≡◌, ◌≢◌, ◌⊎◌, inl, inr, refl, ◌||◌, ap, ◌∷◌, List, arith, ◌==◌, Bool-cases,
}
use go_container_manager.FilePath.{join, base, ext, trim_suffix, has_slash, is_rooted}
use go_container_manager.FilePath.Names.{
  IsName, shown, elements, base-plain, ext-plain, trim_suffix-plain, underscore-IsName, join3-name,
  join3-slash_name, has_slash-append, append_empty, join-shown,
}
use go_container_manager.Service.Files.{safe_name, or_unnamed, build_storage_filename, storage_path}

or_unnamed-plain : (s : String) → has_slash s ≡ false → has_slash (or_unnamed s) ≡ false
unfolding has_slash
or_unnamed-plain s h = elim (Bool-cases (s == "")) [ inl e ↦ rw e refl | inr e ↦ rw e h ]

-- The name of a plain file name is one, and that of "/" is one after a slash.
build-IsName :
    (name id : String)
    → has_slash name ≡ false
    → has_slash id ≡ false
    → IsName (build_storage_filename name id)
unfolding build_storage_filename
build-IsName name id h k =
    underscore-IsName (or_unnamed (trim_suffix name (ext name))) (id ++ ext name)
      (or_unnamed-plain (trim_suffix name (ext name)) (trim_suffix-plain name (ext name) h))
      (rw (has_slash-append id (ext name)) (ground (arith, ext-plain name)))

safe_name-plain : (f : String) → (safe_name f ≡ "/") ⊎ (has_slash (safe_name f) ≡ false)
unfolding safe_name has_slash
safe_name-plain f = elim (Bool-cases (base f == "" || base f == ".")) [
  | inl e ↦ inr (rw e refl)
  | inr e ↦ rw e (base-plain f)
]

build_root : (id : String) → build_storage_filename "/" id ≡ "/" ++ ("_" ++ id)
unfolding build_storage_filename ext trim_suffix
build_root id = ap (λ t. "/" ++ ("_" ++ t)) (append_empty id)

underscored : (id : String) → has_slash id ≡ false → IsName ("_" ++ id)
unfolding has_slash
underscored id h = rw (← append.nil ("_" ++ id)) (underscore-IsName "" id refl h)

-- For a storage root that is not empty and an id without a slash, a file is stored directly in the
-- cleaned folder of its user below the root, whatever the uploaded file name is: its path is that
-- of the folder with one more element, which has no slash and is not empty, a dot or two dots.
pub storage_path-IsName :
    (root user_id filename id : String)
    → root ≢ ""
    → has_slash id ≡ false
    → (folder : List String) × (name : String) × (join root user_id ≡ shown (is_rooted root) folder)
      × IsName name
      × (storage_path root user_id filename id ≡ shown (is_rooted root) (name ∷ folder))
unfolding storage_path
storage_path-IsName root user_id filename id h k =
    let folder = elements (root ++ ("/" ++ user_id)) in
    let name = safe_name filename in
    elim (safe_name-plain filename) [
      | inl e ↦ (
        folder,
        "_" ++ id,
        join-shown root user_id h,
        underscored id k,
        rw (e, build_root id) (join3-slash_name root user_id ("_" ++ id) h (underscored id k)),
      )
      | inr e ↦ (
        folder,
        build_storage_filename name id,
        join-shown root user_id h,
        build-IsName name id e k,
        join3-name root user_id (build_storage_filename name id) h (build-IsName name id e k),
      )
    ]
