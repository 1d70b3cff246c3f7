-- ===== src/Utils/Pagination/Bounds.antt =====
-- What the bounds on `limit` and `offset` let through.
use dashboard_template_api.Common.{ℕ, ◌≤◌, ◌≡◌, ◌↔◌, none, arith}
use dashboard_template_api.Utils.Pagination.{Number, natural, out_of_range, validate_pagination}

abbrev pub IsWithin : ℕ → ℕ → Number → Type 0
IsWithin low high (natural n) = (low ≤ n) × (n ≤ high)
IsWithin low high out_of_range = ⊥

-- Pagination is accepted exactly for a limit from 1 to the maximum and an offset up to its maximum,
-- both natural numbers.
pub validate_pagination_iff :
    (max_limit max_offset : ℕ) (limit offset : Number)
    → (validate_pagination max_limit max_offset limit offset ≡ none)
      ↔ (IsWithin 1 max_limit limit × IsWithin 0 max_offset offset)
unfolding validate_pagination
validate_pagination_iff max_limit max_offset out_of_range offset = (λ h. cc, λ h. absurd h.0)
validate_pagination_iff max_limit max_offset (natural l) out_of_range =
    (λ h. ground arith, λ h. absurd h.1)
validate_pagination_iff max_limit max_offset (natural l) (natural o) = ground arith
