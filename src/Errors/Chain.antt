-- ===== src/Errors/Chain.antt =====
-- `errors.Is`, `errors.As` and a direct type assertion on an error. The first two walk the chain.
use go_container_manager.Prelude.{String, Bool, true, false, Option, none, some, ◌==◌}
use go_container_manager.Errors.{
  AppError, Error, not_found, duplicate, app, pg_error, max_bytes, wrapped,
}

-- errors.Is(err, domain.ErrNotFound)
abbrev pub is_not_found : Error → Bool
is_not_found not_found = true
is_not_found (wrapped _ e) = is_not_found e
is_not_found _ = false

-- errors.Is(err, domain.ErrDuplicate)
abbrev pub is_duplicate : Error → Bool
is_duplicate duplicate = true
is_duplicate (wrapped _ e) = is_duplicate e
is_duplicate _ = false

-- errors.As(err, &appErr)
abbrev pub as_app_error : Error → Option AppError
as_app_error (app e) = some e
as_app_error (wrapped _ e) = as_app_error e
as_app_error _ = none

-- errors.As(err, &maxBytesErr)
abbrev pub as_max_bytes : Error → Bool
as_max_bytes max_bytes = true
as_max_bytes (wrapped _ e) = as_max_bytes e
as_max_bytes _ = false

-- errors.As(err, &pgErr) && pgErr.Code == code
abbrev pub has_pg_code : String → Error → Bool
has_pg_code code (pg_error c) = c == code
has_pg_code code (wrapped _ e) = has_pg_code code e
has_pg_code code _ = false

-- err.(*apperr.AppError): the outermost error alone
abbrev pub assert_app_error : Error → Option AppError
assert_app_error (app e) = some e
assert_app_error _ = none
