-- ===== src/Security/RateLimiter/Tests.antt =====
-- The limiter run on small inputs, and its theorems at concrete clients.
use dashboard_template_api.Common.{
  ◌+◌, ◌≤◌, ◌≡◌, refl, true, false, none, some, List, [], ◌∷◌, arith, count,
}
use dashboard_template_api.Common.Map.{lookup, insert}
use dashboard_template_api.Security.RateLimiter.{
  HttpRequest, RateLimiterConfig, ClientData, client_ip, check_client, check_limit,
  remove_expired_entries,
}
use dashboard_template_api.Security.RateLimiter.Window.{
  check, sweep, Event, accepted, granted, step, in_window,
}
use dashboard_template_api.Security.RateLimiter.Accepted.{accepted-le-max_requests}
use dashboard_template_api.Security.RateLimiter.Retry.{
  check_client_after_retry, check_client_at_retry,
}

limiter : Unit {0}
unfolding accepted granted step check_limit check_client client_ip remove_expired_entries lookup
    insert
limiter = tt

abbrev small : RateLimiterConfig
small = record {
  max_requests = 3;
  window_ms = 100;
  max_burst_requests = 2;
  burst_window_ms = 10;
  key_generator = client_ip;
  skip = λ req. false;
}

abbrev ann : HttpRequest
ann = record { ip = some "10.0.0.1"; remote_address = none }

abbrev bob : HttpRequest
bob = record { ip = none; remote_address = some "10.0.0.2" }

abbrev history : List Event
history =
    check 5 ann
    ∷ check 6 ann
    ∷ check 7 ann
    ∷ check 8 bob
    ∷ check 16 ann
    ∷ check 40 ann
    ∷ sweep 108
    ∷ check 109 ann
    ∷ []

accepted-history : accepted small "10.0.0.1" [] history ≡ 5 ∷ 6 ∷ 16 ∷ 109 ∷ []
unfolding limiter
accepted-history = refl

accepted-bob : accepted small "10.0.0.2" [] history ≡ 8 ∷ []
unfolding limiter
accepted-bob = refl

accepted-le-max_requests_example :
    count (in_window 100 60) (accepted small "10.0.0.1" [] history) ≤ 3
accepted-le-max_requests_example =
    accepted-le-max_requests small "10.0.0.1" history 60 (λ req same. refl) (omega arith)

-- Two accepted requests: the burst is used up.
abbrev busy : ClientData
busy = record { requests = 5 ∷ 6 ∷ []; burst_count = 2; last_burst_reset = 5; violations = 0 }

busy_refused : (check_client small 8 busy).1.allowed ≡ false
unfolding limiter
busy_refused = refl

check_client_after_retry_example :
    (check_client small 16 (check_client small 8 busy).0).1.allowed ≡ true
unfolding limiter
check_client_after_retry_example =
    check_client_after_retry small 8 busy 16 (omega arith) (omega arith) (omega arith) busy_refused
      (omega arith)

check_client_at_retry_example :
    (check_client small
      (8 + (check_client small 8 busy).1.retry_after_ms)
      (check_client small 8 busy).0).1.allowed
    ≡ false
unfolding limiter
check_client_at_retry_example = check_client_at_retry small 8 busy refl refl
