-- ===== src/Service/Files/Stored.antt =====
-- The rows of the files and what is on the disk.
use go_container_manager.Prelude.{
  ℕ, ◌≤◌, String, true, false, ◌≡◌, ◌≢◌, ◌⊎◌, inl, inr, refl, sym, ap, ◌∙◌, Option, some, List, [],
  ◌∷◌, arith, length, count, find, delete_where, Bool-cases, eq_iff, ◌==◌,
}
use go_container_manager.Exec.{is_ok}
use go_container_manager.Domain.{File}
use go_container_manager.Repo.Files.{has_id}
use go_container_manager.Service.Files.{FileSystem}

-- What is relied on of the operating system: which content a path has changes only by a call on that
-- path.
pub record IsDisk {S : Type 0} (fs : FileSystem S) (content_of : S → String → Option (List ℕ))
    : Type 0 where
  pub made :
      (path : String) (s : S) (p : String) → content_of (fs.mkdir_all path s).1 p ≡ content_of s p
  pub written :
      (path : String) (content : List ℕ) (s : S)
      → is_ok (fs.write_file path content s).0 ≡ true
      → content_of (fs.write_file path content s).1 path ≡ some content
  pub elsewhere :
      (path : String) (content : List ℕ) (s : S) (p : String)
      → p ≢ path
      → content_of (fs.write_file path content s).1 p ≡ content_of s p
  pub removed :
      (path : String) (s : S) (p : String)
      → p ≢ path
      → content_of (fs.remove path s).1 p ≡ content_of s p

-- The row of an id.
abbrev pub HasRow : List File → File → Type 0
HasRow rows f = find (has_id f.id) rows ≡ some f

module _ {S : Type 0} (content_of : S → String → Option (List ℕ)) where
  -- Each row has its own file, of the size that it says.
  pub record IsStored (rows : List File) (s : S) : Type 0 where
    pub one_id : (id : String) → count (has_id id) rows ≤ 1
    pub held :
        (f : File)
        → HasRow rows f
        → (content : List ℕ) × (content_of s f.storage_path ≡ some content)
          × (length content ≡ f.size_bytes)
    pub apart :
        (f g : File) → HasRow rows f → HasRow rows g → f.storage_path ≡ g.storage_path → f.id ≡ g.id

  -- Where the files of the rows stay as they are.
  pub untouched :
      (rows : List File) (s t : S)
      → IsStored rows s
      → ((f : File) → HasRow rows f → content_of t f.storage_path ≡ content_of s f.storage_path)
      → IsStored rows t
  untouched rows s t v same = record {
    one_id = v.one_id;
    held = λ f h. let (content, e, n) = v.held f h in (content, same f h ∙ e, n);
    apart = v.apart;
  }

  pub added :
      (f : File) (rows : List File) (s : S) (content : List ℕ)
      → IsStored rows s
      → count (has_id f.id) rows ≡ 0
      → ((g : File) → HasRow rows g → g.storage_path ≢ f.storage_path)
      → content_of s f.storage_path ≡ some content
      → length content ≡ f.size_bytes
      → IsStored (f ∷ rows) s
  unfolding find count
  added f rows s content v fresh new there size =
      let old : (g : File) → HasRow (f ∷ rows) g → (g ≡ f) ⊎ HasRow rows g = λ g h.
        elim (Bool-cases (f.id == g.id)) [
          | inl e ↦ inl (ground arith)
          | inr e ↦ inr (ground arith)
        ] in
      record {
        one_id = λ id. ground (arith, v.one_id id, eq_iff f.id id);
        held = λ g h. elim (old g h) [
          | inl e ↦ (content, rw e there, rw e size)
          | inr h' ↦ v.held g h'
        ];
        apart = λ g k h h' e. elim (old g h) [
          | inl a ↦ elim (old k h') [
            | inl b ↦ rw (a, b) refl
            | inr q ↦ absurd (new k q (sym e ∙ ap (λ x. x.storage_path) a))
          ]
          | inr p ↦ elim (old k h') [
            | inl b ↦ absurd (new g p (e ∙ ap (λ x. x.storage_path) b))
            | inr q ↦ v.apart g k p q e
          ]
        ];
      }

  pub moved : {a b : List File} {s t : S} → a ≡ b → s ≡ t → IsStored b t → IsStored a s
  moved e f v = rw (e, f) v

  pub find-delete_where :
      (id : String) (rows : List File) (g : File)
      → HasRow (delete_where (has_id id) rows) g
      → HasRow rows g × (g.id == id ≡ false)
  unfolding find delete_where
  find-delete_where id [] g h = absurd (ground arith)
  find-delete_where id (r ∷ rows) g h = elim (Bool-cases (r.id == id)) [
    | inl e ↦
        let (k, n) = find-delete_where id rows g (ground arith) in
        (ground (arith, eq_iff r.id id, eq_iff r.id g.id, eq_iff g.id id), n)
    | inr e ↦ elim (Bool-cases (r.id == g.id)) [
      | inl a ↦ (ground arith, ground (arith, eq_iff r.id id, eq_iff r.id g.id, eq_iff g.id id))
      | inr b ↦ let (k, n) = find-delete_where id rows g (ground arith) in (ground arith, n)
    ]
  ]

  count-delete_where :
      (id other : String) (rows : List File)
      → count (has_id other) (delete_where (has_id id) rows) ≤ count (has_id other) rows
  unfolding count delete_where
  count-delete_where id other [] = omega arith
  count-delete_where id other (r ∷ rows) = ground (arith, count-delete_where id other rows)

  pub dropped :
      (id : String) (rows : List File) (s : S)
      → IsStored rows s
      → IsStored (delete_where (has_id id) rows) s
  dropped id rows s v = record {
    one_id = λ other. omega (arith, v.one_id other, count-delete_where id other rows);
    held = λ g h. v.held g (find-delete_where id rows g h).0;
    apart = λ g k h h' e.
        v.apart g k (find-delete_where id rows g h).0 (find-delete_where id rows k h').0 e;
  }
