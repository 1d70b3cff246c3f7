-- ===== src/Utils/Pagination.antt =====
-- src/utils/pagination.ts: the bounds on `limit` and `offset`. A JavaScript number is a natural number,
-- or anything else: negative, fractional or not finite.
pub mod Bounds
pub mod Tests
use dashboard_template_api.Common.{
  ℕ, ◌≤◌, ◌≡◌, ◌↔◌, Bool, true, false, Option, none, some, ltb, leb, if◌then◌else◌, arith,
}

pub data Number : Type 0 where
  natural : ℕ → Number
  out_of_range : Number

pub data PaginationError : Type 0 where
  bad_limit limit_too_large bad_offset offset_too_large : PaginationError

abbrev check_offset : ℕ → Number → Option PaginationError
check_offset max_offset out_of_range = some bad_offset
check_offset max_offset (natural offset) =
    if ltb max_offset offset then some offset_too_large else none

unfoldable pub validate_pagination : ℕ → ℕ → Number → Number → Option PaginationError
validate_pagination max_limit max_offset out_of_range offset = some bad_limit
validate_pagination max_limit max_offset (natural limit) offset =
    if ltb limit 1
    then some bad_limit
    else if ltb max_limit limit
    then some limit_too_large
    else check_offset max_offset offset
