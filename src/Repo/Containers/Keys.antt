-- ===== src/Repo/Containers/Keys.antt =====
-- The keys of the container table hold after every write, whichever statements fail.
use native.Mathlib.Nat.{le_trans}
use go_container_manager.Prelude.{
  ◌+◌, ◌≤◌, String, Bool, false, not, ◌&&◌, ◌≡◌, refl, ◌⊎◌, inl, inr, List, [], ◌∷◌, ◌==◌, eq_iff,
  arith, some, count, find, update_where, delete_where, find-none_iff, if◌then◌else◌, Option-cases,
}
use go_container_manager.Domain.{Container}
use go_container_manager.Db.{ContainerRow, Db, statement}
use go_container_manager.Repo.Containers.{
  save, update, delete, to_row, has_id, has_name, name_clash, overwrite,
}
use go_container_manager.Repo.Containers.Rows.{IsKeyed}

module _ (c : Container) where
  id_after :
      (id : String) (rows : List ContainerRow)
      → count (has_id id) (update_where (has_id c.id) (overwrite c) rows) ≡ count (has_id id) rows
  unfolding count update_where overwrite
  id_after id [] = refl
  id_after id (r ∷ rows) = ground (arith, id_after id rows)

  abbrev renamed_to : String → String → ContainerRow → Bool
  renamed_to u n r = has_id c.id r && (r.user_id == u && c.name == n)

  abbrev other_named : String → String → ContainerRow → Bool
  other_named u n r = has_name u n r && not (r.id == c.id)

  name_after :
      (u n : String) (rows : List ContainerRow)
      → count (has_name u n) (update_where (has_id c.id) (overwrite c) rows)
        ≡ count (other_named u n) rows + count (renamed_to u n) rows
  unfolding count update_where overwrite
  name_after u n [] = refl
  name_after u n (r ∷ rows) = ground (arith, name_after u n rows)

  other-le :
      (u n : String) (rows : List ContainerRow)
      → count (other_named u n) rows ≤ count (has_name u n) rows
  unfolding count
  other-le u n [] = omega arith
  other-le u n (r ∷ rows) = ground (arith, other-le u n rows)

  renamed-le :
      (u n : String) (rows : List ContainerRow)
      → count (renamed_to u n) rows ≤ count (has_id c.id) rows
  unfolding count
  renamed-le u n [] = omega arith
  renamed-le u n (r ∷ rows) = ground (arith, renamed-le u n rows)

  -- With unique ids only the first row of the id can be renamed.
  renamed-first :
      (u n : String) (rows : List ContainerRow) (r : ContainerRow)
      → count (has_id c.id) rows ≤ 1
      → find (has_id c.id) rows ≡ some r
      → count (renamed_to u n) rows ≡ (if r.user_id == u && c.name == n then 1 else 0)
  unfolding count find
  renamed-first u n [] r k e = cc
  renamed-first u n (x ∷ rows) r k e = ground (arith, renamed-first u n rows r, renamed-le u n rows)

  set_row-IsKeyed :
      (rows : List ContainerRow)
      → IsKeyed rows
      → name_clash c rows ≡ false
      → IsKeyed (update_where (has_id c.id) (overwrite c) rows)
  unfolding name_clash
  set_row-IsKeyed rows k h = record {
    one_id = λ id. rw (id_after id rows) (k.one_id id);
    one_name = λ u n. elim (Option-cases (find (has_id c.id) rows)) [
      | inl e ↦ ground (
        arith,
        name_after u n rows,
        other-le u n rows,
        renamed-le u n rows,
        k.one_name u n,
        find-none_iff (has_id c.id) rows,
      )
      | inr (r, e) ↦ ground (
        arith,
        name_after u n rows,
        other-le u n rows,
        renamed-first u n rows r (k.one_id c.id) e,
        k.one_name u n,
        eq_iff r.user_id u,
        eq_iff c.name n,
      )
    ];
  }

  add-IsKeyed :
      (rows : List ContainerRow)
      → IsKeyed rows
      → count (has_id c.id) rows ≡ 0
      → count (has_name c.user_id c.name) rows ≡ 0
      → IsKeyed (to_row c ∷ rows)
  unfolding count to_row
  add-IsKeyed rows k p q = record {
    one_id = λ id. ground (arith, k.one_id id, eq_iff c.id id);
    one_name = λ u n. ground (arith, k.one_name u n, eq_iff c.user_id u, eq_iff c.name n);
  }

count-delete :
    (p q : ContainerRow → Bool) (rows : List ContainerRow)
    → count p (delete_where q rows) ≤ count p rows
unfolding count delete_where
count-delete p q [] = omega arith
count-delete p q (r ∷ rows) = ground (arith, count-delete p q rows)

module _ (db : Db) where
  pub save_cases :
      (c : Container)
      → ((save c db).1.containers ≡ db.containers)
        ⊎ (((save c db).1.containers ≡ to_row c ∷ db.containers)
            × (count (has_id c.id) db.containers ≡ 0)
            × (count (has_name c.user_id c.name) db.containers ≡ 0))
  unfolding save statement
  save_cases c = ground arith

  update_cases :
      (c : Container)
      → ((update c db).1.containers ≡ db.containers)
        ⊎ (((update c db).1.containers ≡ update_where (has_id c.id) (overwrite c) db.containers)
            × (name_clash c db.containers ≡ false))
  unfolding update statement
  update_cases c = ground arith

  delete_cases :
      (id : String)
      → ((delete id db).1.containers ≡ db.containers)
        ⊎ ((delete id db).1.containers ≡ delete_where (has_id id) db.containers)
  unfolding delete statement
  delete_cases id = ground arith

  save-IsKeyed : (c : Container) → IsKeyed db.containers → IsKeyed (save c db).1.containers
  save-IsKeyed c k = elim (save_cases c) [
    | inl e ↦ rw e k
    | inr e ↦ rw e.0 (add-IsKeyed c db.containers k e.1 e.2)
  ]

  pub update-IsKeyed : (c : Container) → IsKeyed db.containers → IsKeyed (update c db).1.containers
  update-IsKeyed c k = elim (update_cases c) [
    | inl e ↦ rw e k
    | inr e ↦ rw e.0 (set_row-IsKeyed c db.containers k e.1)
  ]

  pub delete-IsKeyed : (id : String) → IsKeyed db.containers → IsKeyed (delete id db).1.containers
  delete-IsKeyed id k = elim (delete_cases id) [
    | inl e ↦ rw e k
    | inr e ↦ rw e (record {
      one_id = λ i. le_trans (count-delete (has_id i) (has_id id) db.containers) (k.one_id i);
      one_name =
          λ u n. le_trans (count-delete (has_name u n) (has_id id) db.containers) (k.one_name u n);
    })
  ]

  -- Save, Update and Delete keep container ids unique, and each user's container names, whichever
  -- statements fail.
  writes-IsKeyed :
      (c : Container) (id : String)
      → IsKeyed db.containers
      → IsKeyed (save c db).1.containers
        × IsKeyed (update c db).1.containers
        × IsKeyed (delete id db).1.containers
  writes-IsKeyed c id k = (save-IsKeyed c k, update-IsKeyed c k, delete-IsKeyed id k)
