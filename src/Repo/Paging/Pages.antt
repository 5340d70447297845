-- ===== src/Repo/Paging/Pages.antt =====
-- Pages of a list of rows: which rows they hold, and where the offset wraps.
use go_container_manager.Prelude.{
  ℕ, suc, ◌+◌, ◌-◌, ◌*◌, ◌%◌, ◌^◌, ◌≤◌, ◌<◌, ◌≡◌, List, arith, take, drop,
}
use go_container_manager.Errors.{pg_error}
use go_container_manager.Exec.{ok, err}
use go_container_manager.Repo.Paging.{word, offset_of, paged}

-- The offset of a page that is not too far out, with no wrap.
pub offset_of-small :
    (page limit : ℕ) → limit ≤ 100 → page < 2 ^ 56 → offset_of (suc page) limit ≡ page * limit
unfolding offset_of
offset_of-small page limit h p =
    let small : page * limit < 2 ^ 63 = grind arith in
    let page_mod : (suc page + (word - 1)) % word ≡ page = omega arith in rw page_mod (omega arith)

-- The largest `int`, with an even limit, wraps to a negative offset.
pub offset_of-max :
    (half : ℕ) → 0 < half → half ≤ 50 → offset_of (2 ^ 63 - 1) (2 * half) ≡ 2 ^ 64 - 4 * half
unfolding offset_of
offset_of-max half p h = omega arith

module _ {ℓ} {A : Type ℓ} where
  pub paged-small :
      (page limit : ℕ) (rows : List A)
      → limit ≤ 100
      → page < 2 ^ 56
      → paged (suc page) limit rows ≡ ok (take limit (drop (page * limit) rows))
  unfolding paged
  paged-small page limit rows h p =
      let small : page * limit < 2 ^ 63 = grind arith in
      rw (offset_of-small page limit h p) (ground arith)

  pub paged-max :
      (half : ℕ) (rows : List A)
      → 0 < half
      → half ≤ 50
      → paged (2 ^ 63 - 1) (2 * half) rows ≡ err (pg_error "2201X")
  unfolding paged
  paged-max half rows p h = rw (offset_of-max half p h) (ground arith)
