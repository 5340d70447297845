-- ===== src/Docker/Rows.antt =====
-- The rows that name a Docker container, as rows are written and deleted.
use go_container_manager.Prelude.{
  ◌+◌, ◌≤◌, String, Bool, true, false, ◌≡◌, refl, Option, none, some, List, [], ◌∷◌, arith, ◌==◌,
  eq_iff, count, find, update_where, delete_where,
}
use go_container_manager.Db.{ContainerRow}
use go_container_manager.Repo.Containers
use go_container_manager.Repo.Containers.{has_id, overwrite, scan_container}

abbrev pub names : String → Option String → Bool
names d none = false
names d (some id) = id == d

abbrev pub holds : String → ContainerRow → Bool
holds d r = names d r.docker_container_id

pub names-own : (d : String) (o : Option String) → names d o ≡ true → Containers.empty_if_null o ≡ d
names-own d none h = absurd (ground arith)
names-own d (some x) h = ground (arith, eq_iff x d)

module _ (q : ContainerRow → Bool) where
  update-none :
      (f : ContainerRow → ContainerRow) (rows : List ContainerRow)
      → count q rows ≡ 0
      → update_where q f rows ≡ rows
  unfolding count update_where
  update-none f [] h = refl
  update-none f (r ∷ rows) h = ground (arith, update-none f rows)

  delete-none : (rows : List ContainerRow) → count q rows ≡ 0 → delete_where q rows ≡ rows
  unfolding count delete_where
  delete-none [] h = refl
  delete-none (r ∷ rows) h = ground (arith, delete-none rows)

  -- The one row that is meant, apart from the rest.
  module _ (p : ContainerRow → Bool) (x : ContainerRow) where
    pub count-update_one :
        (f : ContainerRow → ContainerRow) (rows : List ContainerRow)
        → find q rows ≡ some x
        → count q rows ≤ 1
        → count p (update_where q f rows) + count p (x ∷ []) ≡ count p rows + count p (f x ∷ [])
    unfolding count find update_where
    count-update_one f [] e one = absurd (ground arith)
    count-update_one f (r ∷ rows) e one =
        ground (arith, count-update_one f rows, update-none f rows)

    pub count-delete_one :
        (rows : List ContainerRow)
        → find q rows ≡ some x
        → count q rows ≤ 1
        → count p (delete_where q rows) + count p (x ∷ []) ≡ count p rows
    unfolding count find delete_where
    count-delete_one [] e one = absurd (ground arith)
    count-delete_one (r ∷ rows) e one = ground (arith, count-delete_one rows, delete-none rows)
