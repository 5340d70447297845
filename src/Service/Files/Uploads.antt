-- ===== src/Service/Files/Uploads.antt =====
-- Upload: what it admits, and what it leaves.
use go_container_manager.Prelude.{
  ℕ, ◌≤◌, String, true, false, ◌≡◌, ◌↔◌, List, arith, length, count, Option, none, ◌⊎◌, inl, inr,
  Bool-cases,
}
use go_container_manager.Exec.{ok, err, is_ok}
use go_container_manager.Domain.{File}
use go_container_manager.Db.{Tables, healthy, statement}
use go_container_manager.Repo.Files
use go_container_manager.Service.Files.{
  FileSystem, Inputs, Storage, max_file_size, allowed_mime, mime_of, new_file, storage_path, place,
  upload, clean_up,
}
use go_container_manager.FilePath.{dir}

module _ {S : Type 0} (fs : FileSystem S) (root : String) (x : Inputs) (user_id filename : String)
    (content : List ℕ) where
  -- The metadata of the upload.
  abbrev pub uploaded : File
  uploaded = new_file root x user_id filename (mime_of (fs.detect_content_type content)) content

  -- The size and the type are allowed, and the folder and the file could be written.
  pub record Written (s : S) : Type 0 where
    pub small : length content ≤ max_file_size
    pub allowed : allowed_mime uploaded.mime_type ≡ true
    pub folder : is_ok (fs.mkdir_all (dir uploaded.storage_path) s).0 ≡ true
    pub file :
        is_ok
          (fs.write_file uploaded.storage_path content
            (fs.mkdir_all (dir uploaded.storage_path) s).1).0
        ≡ true

  -- The state of the operating system after that.
  abbrev pub after_write : S → S
  after_write s =
      (fs.write_file uploaded.storage_path content (fs.mkdir_all (dir uploaded.storage_path) s).1).1

  pub place-Written :
      (h : Storage S)
      → Written h.outside
      → upload fs root x user_id filename content h ≡ (
        elim (Files.save uploaded h.db).0 [ ok _ ↦ ok uploaded | err e ↦ err e ],
        record {
          db = (Files.save uploaded h.db).1;
          outside =
              clean_up fs uploaded.storage_path
                (Files.save uploaded h.db).0
                (after_write h.outside);
        },
      )
  unfolding upload place new_file
  place-Written h w = ground (arith, w.small, w.allowed, w.folder, w.file)

  pub upload-Written :
      (h : Storage S)
      → is_ok (upload fs root x user_id filename content h).0 ≡ true
      → Written h.outside
  unfolding upload place new_file
  upload-Written h e = record {
    small = ground arith;
    allowed = ground arith;
    folder = ground arith;
    file = ground arith;
  }

  -- On a database in which no statement fails, Upload succeeds exactly when the content has at
  -- most 50MB and an allowed type, the folder and the file could be written, and the new id is
  -- unused.
  pub upload-ok_iff :
      (t : Tables) (s : S)
      → is_ok (upload fs root x user_id filename content (record { db = healthy t; outside = s })).0
          ≡ true
        ↔ Written s × (count (Files.has_id x.file_id) t.files ≡ 0)
  unfolding Files.save statement new_file
  upload-ok_iff t s =
      let h : Storage S = record { db = healthy t; outside = s } in
      (
        (λ e. let w = upload-Written h e in (w, ground (arith, place-Written h w))),
        (λ (w, n). ground (arith, place-Written h w)),
      )

  -- Where an os.Remove that succeeds leaves nothing at its path: on any database, an Upload that
  -- fails after its file was written leaves every table as it was, and has removed the file again
  -- unless os.Remove failed too.
  pub upload_cleaned :
      (content_of : S → String → Option (List ℕ)) (h : Storage S)
      → ((path : String) (s : S)
          → is_ok (fs.remove path s).0 ≡ true
          → content_of (fs.remove path s).1 path ≡ none)
      → Written h.outside
      → is_ok (upload fs root x user_id filename content h).0 ≡ false
      → let after = (upload fs root x user_id filename content h).1 in
        let path = storage_path root user_id filename x.file_id in
        (after.db.tables ≡ h.db.tables)
        × ((content_of after.outside path ≡ none)
            ⊎ (is_ok (fs.remove path (after_write h.outside)).0 ≡ false))
  unfolding Files.save statement new_file
  upload_cleaned content_of h gone w e =
      let path = storage_path root user_id filename x.file_id in
      let s = after_write h.outside in
      (
        ground (arith, place-Written h w),
        elim (Bool-cases (is_ok (fs.remove path s).0)) [
          | inl f ↦ inl (ground (arith, place-Written h w, gone path s f))
          | inr f ↦ inr f
        ],
      )
