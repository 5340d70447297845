-- ===== src/Repo/Paging.antt =====
-- `LIMIT $2 OFFSET $3` with `offset := (page - 1) * limit`, as the two FindByUserID compute it. A Go
-- `int` has 64 bits and wraps; it is held here as its bit pattern, a number below `word`.
pub mod Pages
use go_container_manager.Prelude.{
  ℕ, ◌+◌, ◌-◌, ◌*◌, ◌%◌, ◌^◌, Bool, List, take, drop, leb, if◌then◌else◌,
}
use go_container_manager.Errors.{pg_error}
use go_container_manager.Exec.{Result, ok, err}

abbrev pub word : ℕ
word = 2 ^ 64

-- The pattern of a negative number.
abbrev pub is_negative : ℕ → Bool
is_negative n = leb (2 ^ 63) n

-- (page - 1) * limit
unfoldable pub offset_of : ℕ → ℕ → ℕ
offset_of page limit = (page + (word - 1)) % word * limit % word

-- PostgreSQL refuses a negative LIMIT (2201W) and a negative OFFSET (2201X).
unfoldable pub paged {ℓ} : {A : Type ℓ} → ℕ → ℕ → List A → Result (List A)
paged page limit rows =
    if is_negative limit
    then err (pg_error "2201W")
    else if is_negative (offset_of page limit)
    then err (pg_error "2201X")
    else ok (take limit (drop (offset_of page limit) rows))
