-- ===== src/Security/RateLimiter.antt =====
-- src/security/rate-limiter.ts: the sliding-window rate limiter, one entry per client in a `Map`.
-- Times are `Date.now()` in milliseconds. A difference of times that the source compares with a
-- window is written with the sum on the other side, which is the same test on integers; a
-- difference under `Math.max(0, …)` is the subtraction of ℕ. `toISOString` is left out of the
-- counters: the reset fields hold the time that the source formats. Logging has no effect here.
pub mod Accepted
pub mod Window
pub mod Burst
pub mod Retry
pub mod Tests
use dashboard_template_api.Common.{
  ℕ, ◌+◌, ◌-◌, max, String, Bool, true, false, ◌||◌, Option, none, some, List, [], ◌∷◌, ◌++◌, ltb,
  leb, if◌then◌else◌, length, filter, all,
}
use dashboard_template_api.Common.Map.{Map, lookup, insert}

-- `HttpRequest`, without the headers, which nothing here reads
pub record HttpRequest : Type 0 where
  pub ip : Option String
  pub remote_address : Option String

abbrev or_else : Option String → String → String
or_else none d = d
or_else (some s) d = s

-- `req.ip ?? req.socket?.remoteAddress ?? 'unknown'`
unfoldable pub client_ip : HttpRequest → String
client_ip req = elim req.ip [ none ↦ or_else req.remote_address "unknown" | some ip ↦ ip ]

pub record RateLimiterConfig : Type 0 where
  pub max_requests : ℕ
  pub window_ms : ℕ
  pub max_burst_requests : ℕ
  pub burst_window_ms : ℕ
  pub key_generator : HttpRequest → String
  pub skip : HttpRequest → Bool

-- The options that the YAML section may leave out.
pub record RateLimitOptions : Type 0 where
  pub max_requests : Option ℕ
  pub window_ms : Option ℕ
  pub max_burst_requests : Option ℕ
  pub burst_window_ms : Option ℕ
  pub key_generator : Option (HttpRequest → String)
  pub skip : Option (HttpRequest → Bool)

abbrev get_or {ℓ} : {A : Type ℓ} → Option A → A → A
get_or none d = d
get_or (some a) d = a

-- The constructor's normalisation; `default_key` is `defaultKeyGenerator`, whose SHA-256 is the
-- platform's.
unfoldable pub normalize_config : (HttpRequest → String) → RateLimitOptions → RateLimiterConfig
normalize_config default_key o = record {
  max_requests = get_or o.max_requests 1000;
  window_ms = get_or o.window_ms 900000;
  max_burst_requests = get_or o.max_burst_requests 60;
  burst_window_ms = get_or o.burst_window_ms 60000;
  key_generator = get_or o.key_generator default_key;
  skip = get_or o.skip (λ req. false);
}

-- `defaultKeyGenerator`, over the hash of the platform
unfoldable pub default_key_generator : (String → String) → HttpRequest → String
default_key_generator sha256 req = sha256 (client_ip req)

pub record ClientData : Type 0 where
  pub requests : List ℕ
  pub burst_count : ℕ
  pub last_burst_reset : ℕ
  pub violations : ℕ

pub record RateLimitInfo : Type 0 where
  pub limit : ℕ
  pub remaining : ℕ
  pub reset : ℕ
  pub burst_limit : ℕ
  pub burst_remaining : ℕ
  pub burst_reset : ℕ

-- `info` is `{ skip: true }` for a skipped request
pub record RateLimitDecision : Type 0 where
  pub allowed : Bool
  pub retry_after_ms : ℕ
  pub info : Option RateLimitInfo

abbrev pub Store : Type 0
Store = Map ClientData

-- the entry that a new client gets
abbrev pub fresh : ℕ → ClientData
fresh now = record { requests = []; burst_count = 0; last_burst_reset = now; violations = 0 }

-- `now - timestamp < windowMs`
abbrev pub is_live : ℕ → ℕ → ℕ → Bool
is_live window now timestamp = ltb now (timestamp + window)

-- the entries out of the sliding window are dropped, and an old burst window is restarted
unfoldable pub refresh : RateLimiterConfig → ℕ → ClientData → ClientData
refresh c now d =
    let live = filter (is_live c.window_ms now) d.requests in
    if ltb (d.last_burst_reset + c.burst_window_ms) now
    then record d { requests = live; burst_count = 0; last_burst_reset = now }
    else record d { requests = live }

abbrev info_of : RateLimiterConfig → ℕ → ClientData → RateLimitInfo
info_of c now d = record {
  limit = c.max_requests;
  remaining = c.max_requests - length d.requests;
  reset = now + c.window_ms;
  burst_limit = c.max_burst_requests;
  burst_remaining = c.max_burst_requests - d.burst_count;
  burst_reset = d.last_burst_reset + c.burst_window_ms;
}

abbrev pub window_full : RateLimiterConfig → ClientData → Bool
window_full c d = leb c.max_requests (length d.requests)

abbrev pub burst_full : RateLimiterConfig → ClientData → Bool
burst_full c d = leb c.max_burst_requests d.burst_count

-- `clientData.requests[0] ?? now`
abbrev oldest : ℕ → List ℕ → ℕ
oldest now [] = now
oldest now (t ∷ ts) = t

-- `Math.max(0, ...delays)`, one delay for each limit that is exceeded
unfoldable pub retry_after : RateLimiterConfig → ℕ → ClientData → ℕ
retry_after c now d =
    max (if window_full c d then c.window_ms + oldest now d.requests - now else 0)
      (if burst_full c d then c.burst_window_ms + d.last_burst_reset - now else 0)

-- the rest of `checkLimit`, on the client's refreshed entry
unfoldable pub decide : RateLimiterConfig → ℕ → ClientData → ClientData × RateLimitDecision
unfolding retry_after
decide c now d =
    if window_full c d || burst_full c d
    then (
      record d { violations = d.violations + 1 },
      record {
        allowed = false;
        retry_after_ms = retry_after c now d;
        info = some (info_of c now d);
      },
    )
    else (
      record d { requests = d.requests ++ now ∷ []; burst_count = d.burst_count + 1 },
      record { allowed = true; retry_after_ms = 0; info = some (info_of c now d) },
    )

-- the client's entry, created if there is none
abbrev pub entry_of : Store → String → ℕ → ClientData
entry_of store key now = get_or (lookup key store) (fresh now)

unfoldable pub check_client : RateLimiterConfig → ℕ → ClientData → ClientData × RateLimitDecision
unfolding refresh decide
check_client c now d = decide c now (refresh c now d)

unfoldable pub check_limit : RateLimiterConfig → Store → ℕ → HttpRequest → Store × RateLimitDecision
check_limit c store now req =
    if c.skip req
    then (store, record { allowed = true; retry_after_ms = 0; info = none })
    else let key = c.key_generator req in
      let (data', decision) = check_client c now (entry_of store key now) in
      (insert key data' store, decision)

-- `now - timestamp > windowMs`
abbrev is_expired : ℕ → ℕ → ℕ → Bool
is_expired window now timestamp = ltb (timestamp + window) now

unfoldable pub remove_expired_entries : RateLimiterConfig → ℕ → Store → Store
remove_expired_entries c now [] = []
remove_expired_entries c now ((key, d) ∷ store) =
    let rest = remove_expired_entries c now store in
    if all (is_expired c.window_ms now) d.requests then rest else (key, d) ∷ rest

-- `stop` and `cleanup`: the timer is the platform's
unfoldable pub stop : Store → Store
stop store = []
