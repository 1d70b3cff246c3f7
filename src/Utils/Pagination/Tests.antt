-- ===== src/Utils/Pagination/Tests.antt =====
-- A page of fifty rows.
use dashboard_template_api.Common.{◌≡◌, ◌↔◌, none}
use dashboard_template_api.Utils.Pagination.{natural, validate_pagination}
use dashboard_template_api.Utils.Pagination.Bounds.{IsWithin, validate_pagination_iff}

validate_pagination_iff_example :
    (validate_pagination 1000 100000 (natural 50) (natural 0) ≡ none)
    ↔ (IsWithin 1 1000 (natural 50) × IsWithin 0 100000 (natural 0))
validate_pagination_iff_example = validate_pagination_iff 1000 100000 (natural 50) (natural 0)
