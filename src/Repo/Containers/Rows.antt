-- ===== src/Repo/Containers/Rows.antt =====
-- Keys of the container table, and what is read back after a write.
use go_container_manager.Prelude.{
  ◌+◌, ◌≤◌, String, true, false, ◌&&◌, ◌≡◌, refl, ◌↔◌, List, [], ◌∷◌, eq_iff, eq_refl, arith, some,
  none, Option, map, ap, count, find,
}
use go_container_manager.Errors.{duplicate}
use go_container_manager.Exec.{ok, err, is_ok}
use go_container_manager.Domain.{Container}
use go_container_manager.Db.{ContainerRow, Tables, healthy, statement}
use go_container_manager.Repo.Containers.{
  save, find_by_id, to_row, empty_if_null, scan_container, has_id, has_name, taken_by_other,
  name_clash,
}

-- The primary key, and UNIQUE (user_id, name).
pub record IsKeyed (rows : List ContainerRow) : Type 0 where
  pub one_id : (id : String) → count (has_id id) rows ≤ 1
  pub one_name : (user_id name : String) → count (has_name user_id name) rows ≤ 1

-- The Docker id of a row, "" where it is NULL.
abbrev pub docker_of : Option String → String
docker_of none = ""
docker_of (some id) = id

-- The container that a row stands for, column by column.
abbrev pub container_of : ContainerRow → Container
container_of r = record {
  id = r.id;
  user_id = r.user_id;
  name = r.name;
  environment = r.environment;
  command = r.command;
  status = r.status;
  mount_path = r.mount_path;
  docker_container_id = docker_of r.docker_container_id;
  created_at = r.created_at;
  updated_at = r.updated_at;
}

docker_of_lem : (o : Option String) → empty_if_null o ≡ docker_of o
docker_of_lem none = refl
docker_of_lem (some id) = refl

pub scan_container_lem : (r : ContainerRow) → scan_container r ≡ container_of r
unfolding scan_container
scan_container_lem r =
    ap (λ d. record (container_of r) { docker_container_id = d })
      (docker_of_lem r.docker_container_id)

pub scan_all_lem : (rows : List ContainerRow) → map scan_container rows ≡ map container_of rows
scan_all_lem rows i = map (λ r. scan_container_lem r i) rows

-- A container survives the way into its row and back.
pub scan_container-to_row : (c : Container) → scan_container (to_row c) ≡ c
unfolding scan_container to_row
scan_container-to_row c = ground (arith, eq_iff c.docker_container_id "")

taken_lem :
    (user_id : String) (c : Container) (rows : List ContainerRow)
    → count (taken_by_other user_id c) rows
        + count (λ r. has_name user_id c.name r && has_id c.id r) rows
      ≡ count (has_name user_id c.name) rows
unfolding count
taken_lem user_id c [] = refl
taken_lem user_id c (r ∷ rows) = ground (arith, taken_lem user_id c rows)

found_lem :
    (user_id name id : String) (rows : List ContainerRow) (r : ContainerRow)
    → find (has_id id) rows ≡ some r
    → r.user_id ≡ user_id
    → r.name ≡ name
    → 1 ≤ count (λ x. has_name user_id name x && has_id id x) rows
unfolding count find
found_lem user_id name id [] r e p q = cc
found_lem user_id name id (x ∷ rows) r e p q = ground (
  arith,
  found_lem user_id name id rows r,
  eq_refl user_id,
  eq_refl name,
  eq_iff x.user_id user_id,
  eq_iff x.name name,
)

-- An update that keeps the name is never a duplicate.
pub name_clash-false :
    (c : Container) (rows : List ContainerRow) (r : ContainerRow)
    → IsKeyed rows
    → find (has_id c.id) rows ≡ some r
    → c.name ≡ r.name
    → name_clash c rows ≡ false
unfolding name_clash
name_clash-false c rows r k e n = ground (
  arith,
  taken_lem r.user_id c rows,
  found_lem r.user_id c.name c.id rows r e refl,
  k.one_name r.user_id c.name,
)

-- On a database in which no statement fails, Save of a container succeeds exactly when no row has
-- its id and the user has no container of its name.
pub save-ok_iff :
    (c : Container) (t : Tables)
    → is_ok (save c (healthy t)).0 ≡ true
      ↔ (count (has_id c.id) t.containers ≡ 0)
        × (count (has_name c.user_id c.name) t.containers ≡ 0)
unfolding save statement
save-ok_iff c t = ground arith

-- On a database in which no statement fails, a Save of a container that is refused answers
-- ErrDuplicate and writes nothing.
pub save_refused :
    (c : Container) (t : Tables)
    → is_ok (save c (healthy t)).0 ≡ false
    → save c (healthy t) ≡ (err duplicate, healthy t)
unfolding save statement
save_refused c t h = ground arith

-- On a database in which no statement fails, what Save stored is what FindByID returns, field by
-- field, an empty Docker id through NULL included.
find_by_id-save :
    (c : Container) (t : Tables)
    → is_ok (save c (healthy t)).0 ≡ true
    → (find_by_id c.id (save c (healthy t)).1).0 ≡ ok c
unfolding save statement find_by_id find
find_by_id-save c t h = ground (arith, eq_refl c.id, scan_container-to_row c)
