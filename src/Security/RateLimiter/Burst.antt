-- ===== src/Security/RateLimiter/Burst.antt =====
-- One check of a client: when it is accepted, and what it leaves of the client's entry.
use dashboard_template_api.Common.{
  ℕ, ◌+◌, ◌≤◌, ◌<◌, ◌≡◌, ◌↔◌, ◌⊎◌, true, false, arith, length, filter, count, length-filter,
  length-append, count-le-length, [], ◌∷◌,
}
use dashboard_template_api.Security.RateLimiter.{
  RateLimiterConfig, ClientData, is_live, refresh, decide, check_client,
}

-- Both limits of a client's entry.
pub record IsValid (c : RateLimiterConfig) (d : ClientData) : Type 0 where
  pub window : length d.requests ≤ c.max_requests
  pub burst : d.burst_count ≤ c.max_burst_requests

-- The burst counter allows one more request at `now`, or an old burst window has ended.
abbrev pub HasBurst : RateLimiterConfig → ℕ → ClientData → Type 0
HasBurst c now d =
    (d.burst_count < c.max_burst_requests)
    ⊎ ((d.last_burst_reset + c.burst_window_ms < now) × (0 < c.max_burst_requests))

module _ (c : RateLimiterConfig) (now : ℕ) (d : ClientData) where
  pub check_client-allowed_iff :
      ((check_client c now d).1.allowed ≡ true)
      ↔ ((count (is_live c.window_ms now) d.requests < c.max_requests) × HasBurst c now d)
  unfolding check_client
  check_client-allowed_iff = ground (arith, length-filter (is_live c.window_ms now) d.requests)

  refresh_parts :
      ((refresh c now d).requests ≡ filter (is_live c.window_ms now) d.requests)
      × ((refresh c now d).burst_count ≤ d.burst_count)
  unfolding refresh
  refresh_parts = ground arith

  pub refresh-IsValid : IsValid c d → IsValid c (refresh c now d)
  refresh-IsValid v = record {
    window =
        rw (refresh_parts.0, length-filter)
          (omega (arith, count-le-length (is_live c.window_ms now) d.requests));
    burst = omega (arith, refresh_parts);
  }

  decide-IsValid : IsValid c d → IsValid c (decide c now d).0
  unfolding decide
  decide-IsValid v = ground (arith, length-append d.requests (now ∷ []))

  -- A refused check consumes nothing: the entry is the refreshed one with one more violation.
  pub check_client-refused :
      (check_client c now d).1.allowed ≡ false
      → (check_client c now d).0 ≡ record (refresh c now d) { violations = d.violations + 1 }
  unfolding check_client
  check_client-refused h = ground arith

-- A check never takes a client's entry past either limit.
pub check_client-IsValid :
    (c : RateLimiterConfig) (now : ℕ) (d : ClientData)
    → IsValid c d
    → IsValid c (check_client c now d).0
unfolding check_client
check_client-IsValid c now d v = decide-IsValid c now (refresh c now d) (refresh-IsValid c now d v)
