-- ===== src/Service/Files/Calls.antt =====
-- Upload and Delete, and what is then on the disk.
use mathlib.Core.Path.{subst}
use go_container_manager.Prelude.{
  ℕ, String, true, ◌≡◌, ◌≢◌, ◌⊎◌, inl, inr, refl, sym, ap, Option, some, List, ◌∷◌, arith, count,
  find, delete_where, find-passes, Bool-cases, eq_iff, ◌==◌, Option-cases,
}
use go_container_manager.Exec.{ok, is_ok, Result-cases}
use go_container_manager.Domain.{File}
use go_container_manager.Db.{Db, statement, with_tx}
use go_container_manager.Repo.Files
use go_container_manager.Repo.Files.{has_id}
use go_container_manager.FilePath.{dir}
use go_container_manager.Service.Files.{
  FileSystem, Inputs, Storage, storage_path, new_file, upload, place, delete, run_guarded,
  delete_guard, find_file_for_guard,
}
use go_container_manager.Service.Files.Uploads.{
  Written, uploaded, after_write, place-Written, upload-Written,
}
use go_container_manager.Service.Files.Deletes.{delete_untouched}
use go_container_manager.Service.Files.Stored.{
  IsDisk, HasRow, IsStored, untouched, added, find-delete_where, dropped, moved,
}

module _ {S : Type 0} (fs : FileSystem S) (content_of : S → String → Option (List ℕ))
    (disk : IsDisk fs content_of) where
  -- The removal of the file of a row that is gone.
  removed_file :
      (f : File) (rows : List File) (s : S)
      → IsStored content_of rows s
      → HasRow rows f
      → IsStored content_of (delete_where (has_id f.id) rows) (fs.remove f.storage_path s).1
  removed_file f rows s v found =
      untouched content_of (delete_where (has_id f.id) rows) s _ (dropped content_of f.id rows s v)
        (λ g h.
          let (old, other) = find-delete_where content_of f.id rows g h in
          disk.removed f.storage_path s g.storage_path
            (λ e. absurd (ground (arith, v.apart g f old found e, eq_iff g.id f.id))))

  -- What a Delete that is admitted has done to the rows, whichever statements fail.
  delete_guard_lem :
      (user_id id path : String) (db : Db)
      → (run_guarded true (delete_guard true user_id id) db).0 ≡ ok path
      → (f : File) × HasRow db.files f
        × (f.id ≡ id)
        × (path ≡ f.storage_path)
        × ((run_guarded true (delete_guard true user_id id) db).1.files
            ≡ delete_where (has_id id) db.files)
  unfolding run_guarded delete_guard with_tx statement find_file_for_guard
      Files.find_by_id_for_update Files.delete
  delete_guard_lem user_id id path db h = elim (Option-cases (find (has_id id) db.files)) [
    | inl e ↦ absurd (ground arith)
    | inr (f, e) ↦
        let same : f.id ≡ id =
          ground (arith, find-passes (has_id id) db.files {x = f} e, eq_iff f.id id) in
        (
          f,
          subst (λ i. find (has_id i) db.files ≡ some f) (sym same) e,
          same,
          ground arith,
          ground arith,
        )
  ]

  module _ (root : String) (x : Inputs) (user_id filename : String) (content : List ℕ)
      (h : Storage S) where
    abbrev path : String
    path = storage_path root user_id filename x.file_id

    abbrev after : Storage S
    after = (upload fs root x user_id filename content h).1

    upload-elsewhere : (p : String) → p ≢ path → content_of after.outside p ≡ content_of h.outside p
    unfolding upload place new_file
    upload-elsewhere p other =
        let s₁ = (fs.mkdir_all (dir path) h.outside).1 in
        let s₂ = (fs.write_file path content s₁).1 in
        ground (
          arith,
          disk.made (dir path) h.outside p,
          disk.elsewhere path content s₁ p other,
          disk.removed path s₂ p other,
        )

    upload-rows :
        (after.db.files ≡ h.db.files)
        ⊎ Written fs root x user_id filename content h.outside
          × (count (has_id x.file_id) h.db.files ≡ 0)
          × (after.db.files ≡ uploaded fs root x user_id filename content ∷ h.db.files)
          × (after.outside ≡ after_write fs root x user_id filename content h.outside)
    unfolding upload place new_file Files.save statement
    upload-rows = elim (Bool-cases (is_ok (upload fs root x user_id filename content h).0)) [
      | inl e ↦
          let w = upload-Written fs root x user_id filename content h e in
          let lem = place-Written fs root x user_id filename content h w in
          inr (w, ground (arith, lem), ground (arith, lem), ground (arith, lem))
      | inr e ↦ inl (ground arith)
    ]

    upload_keeps :
        IsStored content_of h.db.files h.outside
        → ((g : File) → HasRow h.db.files g → g.storage_path ≢ path)
        → IsStored content_of after.db.files after.outside
    unfolding new_file
    upload_keeps v new =
        let kept : IsStored content_of h.db.files after.outside =
          untouched content_of h.db.files h.outside after.outside v
            (λ f found. upload-elsewhere f.storage_path (new f found)) in
        elim upload-rows [
          | inl same ↦ rw same kept
          | inr (w, unused, rows, outside) ↦ rw rows (
              added content_of (uploaded fs root x user_id filename content) h.db.files
                after.outside content kept unused new
                (rw outside (disk.written path content _ w.file)) refl)
        ]

  delete_keeps :
      (user_id id : String) (h : Storage S)
      → IsStored content_of h.db.files h.outside
      → let after = (delete fs true user_id id h).1 in
        IsStored content_of after.db.files after.outside
  unfolding delete
  delete_keeps user_id id h v =
      elim (Result-cases (run_guarded true (delete_guard true user_id id) h.db).0) [
        | inl (path, e) ↦
            let (f, found, same, at, rows) = delete_guard_lem user_id id path h.db e in
            let gone : (delete fs true user_id id h).1.db.files
                ≡ delete_where (has_id f.id) h.db.files =
              ground (arith, rows, same) in
            elim (Bool-cases (path == "")) [
              | inl a ↦
                  moved content_of gone (ground arith)
                    (dropped content_of f.id h.db.files h.outside v)
              | inr a ↦
                  moved content_of gone (ground (arith, at))
                    (removed_file f h.db.files h.outside v found)
            ]
        | inr (x, e) ↦
            let (tables, outside, _) = delete_untouched fs user_id id h (rw e refl) in
            moved content_of (ap (λ t. t.files) tables) outside v
      ]

-- The calls that change files.
pub data Call : Type 0 where
  uploads : String → Inputs → String → String → List ℕ → Call
  deletes : String → String → Call

module _ {S : Type 0} (fs : FileSystem S) where
  unfoldable pub call : Call → Storage S → Storage S
  call (uploads root x user_id filename content) h = (upload fs root x user_id filename content h).1
  call (deletes user_id id) h = (delete fs true user_id id h).1

-- The new id gives a path that no row has.
unfoldable pub IsNew : Call → List File → Type 0
IsNew (uploads root x user_id filename content) rows =
    (g : File) → HasRow rows g → g.storage_path ≢ storage_path root user_id filename x.file_id
IsNew (deletes user_id id) rows = Unit {0}

-- Where a call on a path of the disk changes the content of that path alone, and a file that was
-- written is there: an Upload, whose new id gives a path that no row has, and with a TxManager a
-- Delete keep that file ids are unique, that no two rows have the same path, and that each row's
-- file is on the disk with the size in the row, whichever statements and calls of the operating
-- system fail.
pub call-IsStored :
    {S : Type 0} (fs : FileSystem S) (content_of : S → String → Option (List ℕ))
    → IsDisk fs content_of
    → (c : Call) (h : Storage S) → IsNew c h.db.files
    → IsStored content_of h.db.files h.outside
    → IsStored content_of (call fs c h).db.files (call fs c h).outside
unfolding call IsNew
call-IsStored fs content_of disk (uploads root x user_id filename content) h new v =
    upload_keeps fs content_of disk root x user_id filename content h v new
call-IsStored fs content_of disk (deletes user_id id) h new v =
    delete_keeps fs content_of disk user_id id h v
