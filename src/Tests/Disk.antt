-- ===== src/Tests/Disk.antt =====
-- A disk that is a function from paths to contents, and the deletion of a file on it.
use go_container_manager.Prelude.{
  ℕ, false, String, ◌≡◌, ◌⊎◌, Option, none, some, List, [], ◌∷◌, refl, arith, find, count, ◌==◌,
  eq_iff, eq_refl, if◌then◌else◌,
}
use go_container_manager.Exec.{ok, is_ok}
use go_container_manager.Domain.{File}
use go_container_manager.Db.{healthy, statement}
use go_container_manager.Repo.Files as Rows
use go_container_manager.Service.Files
use go_container_manager.Service.Files.{
  FileSystem, Storage, storage_path, upload, place, new_file, mime_of,
}
use go_container_manager.Service.Files.Uploads.{Written, after_write, upload_cleaned}
use go_container_manager.Service.Files.Stored.{IsDisk, IsStored, HasRow}
use go_container_manager.Service.Files.Calls.{deletes, call, call-IsStored, IsNew}
use go_container_manager.Tests.Data.{tables}
use go_container_manager.Tests.Access.{note}

abbrev Contents : Type 0
Contents = String → Option (List ℕ)

abbrev disk : FileSystem Contents
disk = record {
  mkdir_all = λ path s. (ok tt, s);
  write_file = λ path content s. (ok tt, λ p. if p == path then some content else s p);
  remove = λ path s. (ok tt, λ p. if p == path then none else s p);
  is_not_exist = λ e. false;
  detect_content_type = λ content. "text/plain; charset=utf-8";
}

abbrev content_of : Contents → Contents
content_of s = s

disk-IsDisk : IsDisk disk content_of
disk-IsDisk = record {
  made = λ path s p. refl;
  written = λ path content s e. rw (eq_refl path) refl;
  elsewhere = λ path content s p n. ground (arith, n, eq_iff p path);
  removed = λ path s p n. ground (arith, n, eq_iff p path);
}

abbrev full : Contents
full p = if p == "/data/alice/a_f1.txt" then some (65 ∷ []) else none

abbrev kept : Storage Contents
kept = record { db = healthy (record tables { files = note ∷ [] }); outside = full }

the_note : (f : File) → HasRow (note ∷ []) f → f ≡ note
unfolding find
the_note f h = ground arith

kept-IsStored : IsStored content_of (note ∷ []) full
unfolding count
kept-IsStored = record {
  one_id = λ id. ground arith;
  held = λ f h. rw (the_note f h) (65 ∷ [], refl, refl);
  apart = λ f g h k e. rw (the_note f h, the_note g k) refl;
}

call-IsStored_example :
    let after = call disk (deletes "alice" "f1") kept in
    IsStored content_of after.db.files after.outside
unfolding IsNew
call-IsStored_example =
    call-IsStored disk content_of disk-IsDisk (deletes "alice" "f1") kept tt kept-IsStored

-- An upload whose row cannot be stored.
abbrev refused : Storage Contents
refused = record kept { db = record kept.db { faults = some "disk full" ∷ [] } }

abbrev moment : Files.Inputs
moment = record { file_id = "f2"; now = 100 }

written : Written disk "/data" moment "alice" "b.txt" (65 ∷ []) full
unfolding new_file mime_of
written = record { small = omega arith; allowed = refl; folder = refl; file = refl }

upload_cleaned_example :
    let after = (upload disk "/data" moment "alice" "b.txt" (65 ∷ []) refused).1 in
    let path = storage_path "/data" "alice" "b.txt" "f2" in
    (after.db.tables ≡ refused.db.tables)
    × ((content_of after.outside path ≡ none)
        ⊎ (is_ok
              (disk.remove path
                (after_write disk "/data" moment "alice" "b.txt" (65 ∷ []) refused.outside)).0
            ≡ false))
unfolding upload place Rows.save statement new_file mime_of
upload_cleaned_example =
    upload_cleaned disk "/data" moment "alice" "b.txt" (65 ∷ []) content_of refused
      (λ path s e. rw (eq_refl path) refl) written refl
