-- ===== src/Security/RateLimiter/Retry.antt =====
-- What the delay of a refusal promises.
use dashboard_template_api.Common.{
  ℕ, ◌+◌, ◌≤◌, ◌<◌, ◌≡◌, inl, inr, true, false, List, [], ◌∷◌, arith, length, count,
  count-le-length, Bool-cases,
}
use dashboard_template_api.Security.RateLimiter.{
  RateLimiterConfig, ClientData, is_live, refresh, check_client, oldest, window_full, burst_full,
  retry_after,
}
use dashboard_template_api.Security.RateLimiter.Burst.{
  IsValid, HasBurst, check_client-allowed_iff, check_client-refused, refresh-IsValid,
}

-- Once the oldest request has left the window, a place is free.
count-lt_of_oldest :
    (w now later : ℕ) (xs : List ℕ)
    → 0 < length xs
    → w + oldest now xs ≤ later
    → count (is_live w later) xs < length xs
count-lt_of_oldest w now later [] h e = absurd (omega arith)
count-lt_of_oldest w now later (x ∷ xs) h e = ground (arith, count-le-length (is_live w later) xs)

module _ (c : RateLimiterConfig) (now later : ℕ) (d : ClientData) where
  window_frees :
      0 < c.max_requests
      → length d.requests ≤ c.max_requests
      → now + retry_after c now d < later
      → count (is_live c.window_ms later) d.requests < c.max_requests
  unfolding retry_after
  window_frees positive v e = ground (
    arith,
    count-lt_of_oldest c.window_ms now later d.requests,
    count-le-length (is_live c.window_ms later) d.requests,
  )

  burst_frees : 0 < c.max_burst_requests → now + retry_after c now d < later → HasBurst c later d
  unfolding retry_after
  burst_frees positive e = ground arith

module _ (c : RateLimiterConfig) (now : ℕ) (d : ClientData) where
  abbrev refreshed : ClientData
  refreshed = refresh c now d

  retry_after-decide :
      (check_client c now d).1.allowed ≡ false
      → (check_client c now d).1.retry_after_ms ≡ retry_after c now refreshed
  unfolding check_client
  retry_after-decide h = ground arith

  -- A client that is refused, whose entry is within both limits, and that waits longer than
  -- `retry_after_ms` with no check of its own in between, is accepted at its next check, if both
  -- limits are above 0.
  pub check_client_after_retry :
      (later : ℕ)
      → 0 < c.max_requests
      → 0 < c.max_burst_requests
      → IsValid c d
      → (check_client c now d).1.allowed ≡ false
      → now + (check_client c now d).1.retry_after_ms < later
      → (check_client c later (check_client c now d).0).1.allowed ≡ true
  check_client_after_retry later positive burst v refused wait =
      let wait' = rw (retry_after-decide refused) at wait in
      let valid = refresh-IsValid c now d v in
      rw (check_client-refused c now d refused) (
        (check_client-allowed_iff c later _).1 (
          window_frees c now later refreshed positive valid.window wait',
          burst_frees c now later refreshed burst wait',
        ))

  -- A refreshed burst window has not ended.
  refresh_open : now ≤ refreshed.last_burst_reset + c.burst_window_ms
  unfolding refresh
  refresh_open = ground arith

  retry_after_burst :
      window_full c refreshed ≡ false
      → burst_full c refreshed ≡ true
      → now + retry_after c now refreshed ≡ refreshed.last_burst_reset + c.burst_window_ms
  unfolding retry_after
  retry_after_burst room full = ground (arith, refresh_open)

  refused_of_burst_full : burst_full c refreshed ≡ true → (check_client c now d).1.allowed ≡ false
  unfolding check_client
  refused_of_burst_full full = ground arith

  not-HasBurst :
      (later : ℕ) (e : ClientData)
      → burst_full c e ≡ true
      → later ≤ e.last_burst_reset + c.burst_window_ms
      → ¬ HasBurst c later e
  not-HasBurst later e full open' = ground arith

  -- A client that is refused for its burst alone, and that waits exactly `retry_after_ms`, is
  -- refused again.
  pub check_client_at_retry :
      window_full c refreshed ≡ false
      → burst_full c refreshed ≡ true
      → (check_client c
          (now + (check_client c now d).1.retry_after_ms)
          (check_client c now d).0).1.allowed
        ≡ false
  check_client_at_retry room full =
      let refused = refused_of_burst_full full in
      let later = now + retry_after c now refreshed in
      let waiting = record refreshed { violations = d.violations + 1 } in
      rw (retry_after-decide refused, check_client-refused c now d refused)
        (elim (Bool-cases (check_client c later waiting).1.allowed) [
          | inl accepted ↦ absurd (
              not-HasBurst later waiting full (omega (arith, retry_after_burst room full))
                ((check_client-allowed_iff c later waiting).0 accepted).1)
          | inr refused' ↦ refused'
        ])
