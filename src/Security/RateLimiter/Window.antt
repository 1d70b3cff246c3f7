-- ===== src/Security/RateLimiter/Window.antt =====
-- The sliding window over whole histories of the limiter: checks and periodic sweeps in time order.
use dashboard_template_api.Common.{
  ℕ, ◌≤◌, ◌<◌, String, ◌≡◌, refl, Bool, true, false, ◌&&◌, Option, none, some, List, [], ◌∷◌, ◌++◌,
  arith, leb, if◌then◌else◌, filter, all, count, count-append, length-filter, All, ◌⊎◌, str_eq,
}
use dashboard_template_api.Security.RateLimiter.{
  HttpRequest, RateLimiterConfig, ClientData, Store, is_live, is_expired, check_client, check_limit,
  remove_expired_entries,
}

-- What happens to a limiter: a request is checked, or the sweep runs, at a time.
pub data Event : Type 0 where
  check : ℕ → HttpRequest → Event
  sweep : ℕ → Event

abbrev pub time : Event → ℕ
time (check now req) = now
time (sweep now) = now

-- The clock does not go back.
abbrev pub IsOrdered : ℕ → List Event → Type 0
IsOrdered t [] = Unit
IsOrdered t (e ∷ es) = (t ≤ time e) × IsOrdered (time e) es

module _ (c : RateLimiterConfig) where
  unfoldable pub step : Store → Event → Store
  step store (check now req) = (check_limit c store now req).0
  step store (sweep now) = remove_expired_entries c now store

  -- The times at which an event answers a request of `key` that it is allowed.
  unfoldable pub granted : String → Store → Event → List ℕ
  granted key store (check now req) =
      if str_eq (c.key_generator req) key && (check_limit c store now req).1.allowed
      then now ∷ []
      else []
  granted key store (sweep now) = []

  unfoldable pub accepted : String → Store → List Event → List ℕ
  accepted key store [] = []
  accepted key store (e ∷ es) = granted key store e ++ accepted key (step store e) es

-- An accepted time lies in the window that ends at `t`.
abbrev pub in_window : ℕ → ℕ → ℕ → Bool
in_window window t x = leb x t && is_live window t x

module _ (w : ℕ) where
  -- Later, fewer requests are live.
  count-is_live_mono :
      (s t : ℕ) (xs : List ℕ) → s ≤ t → count (is_live w t) xs ≤ count (is_live w s) xs
  count-is_live_mono s t [] h = omega arith
  count-is_live_mono s t (x ∷ xs) h = ground (arith, count-is_live_mono s t xs h)

  -- What the filter drops is live at no later time.
  pub count-filter-is_live :
      (s t : ℕ) (xs : List ℕ)
      → s ≤ t
      → count (is_live w t) (filter (is_live w s) xs) ≡ count (is_live w t) xs
  count-filter-is_live s t [] h = refl
  count-filter-is_live s t (x ∷ xs) h = ground (arith, count-filter-is_live s t xs h)

  pub count-is_live_of_expired :
      (s t : ℕ) (xs : List ℕ) → s ≤ t → all (is_expired w s) xs ≡ true → count (is_live w t) xs ≡ 0
  count-is_live_of_expired s t [] h e = refl
  count-is_live_of_expired s t (x ∷ xs) h e = ground (arith, count-is_live_of_expired s t xs h)

  count-in_window-le : (t : ℕ) (xs : List ℕ) → count (in_window w t) xs ≤ count (is_live w t) xs
  count-in_window-le t [] = omega arith
  count-in_window-le t (x ∷ xs) = ground (arith, count-in_window-le t xs)

-- The stored times of a client; none without an entry.
abbrev pub requests_of : Option ClientData → List ℕ
requests_of none = []
requests_of (some d) = d.requests

-- The times `g` accepted so far never exceed the limit in a window, and the stored ones account
-- for all that still count.
pub record Accounts (c : RateLimiterConfig) (now : ℕ) (g stored : List ℕ) : Type 0 where
  pub bounded : (t : ℕ) → count (in_window c.window_ms t) g ≤ c.max_requests
  pub past : All (λ x. x ≤ now) g
  pub covered :
      (t : ℕ) → now ≤ t → count (is_live c.window_ms t) g ≤ count (is_live c.window_ms t) stored

All-le_mono : (s now : ℕ) (xs : List ℕ) → s ≤ now → All (λ x. x ≤ s) xs → All (λ x. x ≤ now) xs
All-le_mono s now [] h p = tt
All-le_mono s now (x ∷ xs) h p = (omega arith, All-le_mono s now xs h p.1)

module _ (c : RateLimiterConfig) where
  pub Accounts-later :
      (s now : ℕ) (g stored : List ℕ) → s ≤ now → Accounts c s g stored → Accounts c now g stored
  Accounts-later s now g stored h a = record {
    bounded = a.bounded;
    past = All-le_mono s now g h a.past;
    covered = λ t later. a.covered t (omega arith);
  }

  -- The pruned list serves as well.
  pub Accounts-prune :
      (now : ℕ) (g stored : List ℕ)
      → Accounts c now g stored
      → Accounts c now g (filter (is_live c.window_ms now) stored)
  Accounts-prune now g stored a = record {
    bounded = a.bounded;
    past = a.past;
    covered =
        λ t later. rw (count-filter-is_live c.window_ms now t stored later) (a.covered t later);
  }

  -- Accepting at `now` below the limit.
  pub Accounts-push :
      (now : ℕ) (g stored : List ℕ)
      → Accounts c now g stored
      → count (is_live c.window_ms now) stored < c.max_requests
      → Accounts c now (now ∷ g) (stored ++ now ∷ [])
  Accounts-push now g stored a room = record {
    bounded = λ t. bounded_at t;
    past = (omega arith, a.past);
    covered = λ t later.
        omega (arith, count-append (is_live c.window_ms t) stored (now ∷ []), a.covered t later);
  }
    where
      bounded_at : (t : ℕ) → count (in_window c.window_ms t) (now ∷ g) ≤ c.max_requests
      bounded_at t = ground (
        arith,
        a.bounded t,
        a.covered now,
        count-in_window-le c.window_ms t g,
        count-is_live_mono c.window_ms now t g,
      )

-- What a check does to the stored times, by its answer.
pub check_client-requests :
    (c : RateLimiterConfig) (now : ℕ) (d : ClientData)
    → (((check_client c now d).1.allowed ≡ true)
        × ((check_client c now d).0.requests
            ≡ filter (is_live c.window_ms now) d.requests ++ now ∷ [])
        × (count (is_live c.window_ms now) d.requests < c.max_requests))
      ⊎ (((check_client c now d).1.allowed ≡ false)
          × ((check_client c now d).0.requests ≡ filter (is_live c.window_ms now) d.requests))
unfolding check_client
check_client-requests c now d = ground (arith, length-filter (is_live c.window_ms now) d.requests)
