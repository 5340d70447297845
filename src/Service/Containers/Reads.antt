-- ===== src/Service/Containers/Reads.antt =====
-- Get and List as a client meets them.
use go_container_manager.Prelude.{
  ℕ, suc, ◌-◌, ◌*◌, ◌^◌, ◌≤◌, ◌<◌, String, true, ◌&&◌, ◌≡◌, ◌↔◌, refl, List, [], ◌∷◌, map, arith,
  take, drop, if◌then◌else◌, some, inl, inr, Option-cases, find, find-passes, find-none_iff, count,
  eq_iff, ◌==◌, Bool, Bool-cases, All, insert_desc, sort_desc, select, count-insert_desc, leb, ◌∙◌,
}
use go_container_manager.Errors.{pg_error}
use go_container_manager.Exec.{ok, err, is_ok}
use go_container_manager.Domain.{Container}
use go_container_manager.Db.{ContainerRow, Tables, Db, healthy, statement}
use go_container_manager.Repo.Paging.Pages.{paged-small, paged-max}
use go_container_manager.Repo.Containers
use go_container_manager.Repo.Containers.{scan_container, newest_of, has_owner, has_id}
use go_container_manager.Repo.Containers.Rows.{IsKeyed, container_of, scan_all_lem}
use go_container_manager.Service.Containers.{get, list, clamp_page, clamp_limit}

owned-le :
    (user_id id : String) (rows : List ContainerRow)
    → count (λ r. has_id id r && has_owner user_id r) rows ≤ count (has_id id) rows
unfolding count
owned-le user_id id [] = omega arith
owned-le user_id id (r ∷ rows) = ground (arith, owned-le user_id id rows)

found_owned :
    (user_id id : String) (rows : List ContainerRow) (r : ContainerRow)
    → count (has_id id) rows ≤ 1
    → find (has_id id) rows ≡ some r
    → count (λ x. has_id id x && has_owner user_id x) rows ≡ (if r.user_id == user_id then 1 else 0)
unfolding count find
found_owned user_id id [] r k e = cc
found_owned user_id id (x ∷ rows) r k e =
    ground (arith, found_owned user_id id rows r, owned-le user_id id rows)

-- On a database in which no statement fails and ids are unique, Get succeeds exactly when the user
-- has a container with the id.
get-ok_iff :
    (user_id id : String) (t : Tables)
    → IsKeyed t.containers
    → is_ok (get user_id id (healthy t)).0 ≡ true
      ↔ count (λ r. has_id id r && has_owner user_id r) t.containers ≡ 1
unfolding get Containers.find_by_id statement
get-ok_iff user_id id t k = elim (Option-cases (find (has_id id) t.containers)) [
  | inl e ↦ ground (arith, owned-le user_id id t.containers, find-none_iff (has_id id) t.containers)
  | inr (r, e) ↦ ground (arith, found_owned user_id id t.containers r (k.one_id id) e)
]

-- Whatever the database does, a container that Get returns has the id and belongs to the user who
-- asks.
get_owner :
    (user_id id : String) (db : Db) (c : Container)
    → (get user_id id db).0 ≡ ok c
    → (c.id ≡ id) × (c.user_id ≡ user_id)
unfolding get Containers.find_by_id statement
get_owner user_id id db c h = elim (Option-cases (find (has_id id) db.containers)) [
  | inl e ↦ ground arith
  | inr (r, e) ↦ ground (
    arith,
    find-passes (has_id id) db.containers {x = r},
    eq_iff r.id id,
    eq_iff r.user_id user_id,
  )
]

clamp_page-small : (page : ℕ) → page < 2 ^ 56 → clamp_page (suc page) ≡ suc page
clamp_page-small page h = ground arith

clamp_limit-small : (limit : ℕ) → 1 ≤ limit → limit ≤ 100 → clamp_limit limit ≡ limit
clamp_limit-small limit lo hi = ground arith

-- The newest first; nothing is said of rows of the same time.
unfoldable pub IsNewestFirst : List ContainerRow → Type 0
IsNewestFirst [] = Unit {0}
IsNewestFirst (r ∷ rows) = All (λ x. x.created_at ≤ r.created_at) rows × IsNewestFirst rows

All-insert_desc :
    (r : ContainerRow) (at : ℕ) (rows : List ContainerRow)
    → r.created_at ≤ at
    → All (λ x. x.created_at ≤ at) rows
    → All (λ x. x.created_at ≤ at) (insert_desc (λ x. x.created_at) r rows)
unfolding insert_desc
All-insert_desc r at [] h k = (h, tt)
All-insert_desc r at (x ∷ rows) h k = elim (Bool-cases (leb x.created_at r.created_at)) [
  | inl e ↦ rw e (h, k)
  | inr e ↦ rw e (k.0, All-insert_desc r at rows h k.1)
]

All-older :
    (low high : ℕ) (rows : List ContainerRow)
    → low ≤ high
    → All (λ x. x.created_at ≤ low) rows
    → All (λ x. x.created_at ≤ high) rows
All-older low high [] h k = tt
All-older low high (x ∷ rows) h k = (omega (arith, h, k.0), All-older low high rows h k.1)

insert_desc-IsNewestFirst :
    (r : ContainerRow) (rows : List ContainerRow)
    → IsNewestFirst rows
    → IsNewestFirst (insert_desc (λ x. x.created_at) r rows)
unfolding insert_desc IsNewestFirst
insert_desc-IsNewestFirst r [] h = (tt, tt)
insert_desc-IsNewestFirst r (x ∷ rows) h = elim (Bool-cases (leb x.created_at r.created_at)) [
  | inl e ↦
      let le : x.created_at ≤ r.created_at = ground (arith, e) in
      rw e ((le, All-older x.created_at r.created_at rows le h.0), h)
  | inr e ↦ rw e (
    All-insert_desc r x.created_at rows (ground (arith, e)) h.0,
    insert_desc-IsNewestFirst r rows h.1,
  )
]

sort_desc-IsNewestFirst :
    (rows : List ContainerRow) → IsNewestFirst (sort_desc (λ x. x.created_at) rows)
unfolding sort_desc IsNewestFirst
sort_desc-IsNewestFirst [] = tt
sort_desc-IsNewestFirst (r ∷ rows) =
    insert_desc-IsNewestFirst r (sort_desc (λ x. x.created_at) rows) (sort_desc-IsNewestFirst rows)

count-sort_desc :
    (p : ContainerRow → Bool) (rows : List ContainerRow)
    → count p (sort_desc (λ x. x.created_at) rows) ≡ count p rows
unfolding sort_desc count
count-sort_desc p [] = refl
count-sort_desc p (r ∷ rows) = ground (
  arith,
  count-insert_desc p (λ x. x.created_at) r (sort_desc (λ x. x.created_at) rows),
  count-sort_desc p rows,
)

count-select :
    (p q : ContainerRow → Bool) (rows : List ContainerRow)
    → count p (select q rows) ≡ count (λ r. q r && p r) rows
unfolding select count
count-select p q [] = refl
count-select p q (r ∷ rows) = ground (arith, count-select p q rows)

-- Where the database reads rows in any order that has the same rows: on a database in which no
-- statement fails, for a limit from 1 to 100 and fewer than 2^56 pages, List answers with the
-- page's slice of a list that has exactly the user's containers, the newest first and those of the
-- same time in an order of the database, and with their number.
pub list_lem :
    (order : List ContainerRow → List ContainerRow) (user_id : String) (page limit : ℕ) (t : Tables)
    → ((p : ContainerRow → Bool) (rows : List ContainerRow) → count p (order rows) ≡ count p rows)
    → 1 ≤ limit
    → limit ≤ 100
    → page < 2 ^ 56
    → (all : List ContainerRow) × IsNewestFirst all
      × ((p : ContainerRow → Bool)
          → count p all ≡ count (λ r. r.user_id == user_id && p r) t.containers)
      × (list order user_id (suc page) limit (healthy t) ≡ (
        ok (
          map container_of (take limit (drop (page * limit) all)),
          count (λ r. r.user_id == user_id) t.containers,
        ),
        healthy t,
      ))
unfolding list Containers.find_by_user_id statement
list_lem order user_id page limit t same lo hi small =
    let mine = select (has_owner user_id) t.containers in
    let all = newest_of order user_id t.containers in
    (
      all,
      sort_desc-IsNewestFirst (order mine),
      (λ p.
          count-sort_desc p (order mine)
          ∙ same p mine
          ∙ count-select p (has_owner user_id) t.containers),
      rw (clamp_page-small page small, clamp_limit-small limit lo hi)
          (ground (
            arith,
            paged-small page limit all hi small,
            scan_all_lem (take limit (drop (page * limit) all)),
          )),
    )

-- For an even limit from 2 to 100, the largest page number is answered by an error of the
-- database, on any table: its offset wraps to a negative number.
list_max_page :
    (order : List ContainerRow → List ContainerRow) (user_id : String) (half : ℕ) (t : Tables)
    → 0 < half
    → half ≤ 50
    → (list order user_id (2 ^ 63 - 1) (2 * half) (healthy t)).0 ≡ err (pg_error "2201X")
unfolding list Containers.find_by_user_id statement
list_max_page order user_id half t lo hi =
    let e : clamp_limit (2 * half) ≡ 2 * half =
      clamp_limit-small (2 * half) (omega arith) (omega arith) in
    rw e (ground (arith, paged-max half (newest_of order user_id t.containers) lo hi))
