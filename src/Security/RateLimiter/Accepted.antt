-- ===== src/Security/RateLimiter/Accepted.antt =====
-- The requests accepted within one window: the bound on them after any sequence of events.
use dashboard_template_api.Common.{
  ℕ, ◌+◌, ◌≤◌, String, ◌≡◌, refl, true, false, Option, none, some, List, [], ◌∷◌, ◌++◌, arith,
  if◌then◌else◌, all, count, count-append, Bool-cases, inl, inr, str_eq, eq_iff,
}
use dashboard_template_api.Common.Map.{lookup, lookup-insert, IsUnique, insert-IsUnique}
use dashboard_template_api.Security.RateLimiter.{
  HttpRequest, RateLimiterConfig, ClientData, Store, is_expired, check_client, check_limit,
  entry_of, remove_expired_entries,
}
use dashboard_template_api.Security.RateLimiter.Window.{
  Event, time, IsOrdered, step, granted, accepted, in_window, count-filter-is_live,
  count-is_live_of_expired, requests_of, Accounts, Accounts-later, Accounts-prune, Accounts-push,
  check_client-requests, check, sweep,
}

abbrev kept : RateLimiterConfig → ℕ → Option ClientData → Option ClientData
kept c now none = none
kept c now (some d) = if all (is_expired c.window_ms now) d.requests then none else some d

lookup-remove_expired_entries :
    (c : RateLimiterConfig) (now : ℕ) (key : String) (store : Store)
    → IsUnique store
    → lookup key (remove_expired_entries c now store) ≡ kept c now (lookup key store)
unfolding remove_expired_entries lookup
lookup-remove_expired_entries c now key [] h = refl
lookup-remove_expired_entries c now key ((k, d) ∷ store) (absent, h) = ground (
  arith,
  lookup-remove_expired_entries c now key store h,
  lookup-remove_expired_entries c now k store h,
  eq_iff k key,
)

remove_expired_entries-IsUnique :
    (c : RateLimiterConfig) (now : ℕ) (store : Store)
    → IsUnique store
    → IsUnique (remove_expired_entries c now store)
unfolding remove_expired_entries
remove_expired_entries-IsUnique c now [] h = tt
remove_expired_entries-IsUnique c now ((k, d) ∷ store) (absent, h) = ground (
  arith,
  remove_expired_entries-IsUnique c now store h,
  lookup-remove_expired_entries c now k store h,
)

module _ (c : RateLimiterConfig) (key : String) where
  abbrev stored_at : Store → List ℕ
  stored_at store = requests_of (lookup key store)

  step-IsUnique : (store : Store) (e : Event) → IsUnique store → IsUnique (step c store e)
  unfolding step check_limit
  step-IsUnique store (sweep now) h = remove_expired_entries-IsUnique c now store h
  step-IsUnique store (check now req) h =
      let k = c.key_generator req in
      let d = entry_of store k now in
      ground (arith, insert-IsUnique k (check_client c now d).0 store h)

  -- A sweep forgets only times that no later window holds.
  Accounts-sweep :
      (now : ℕ) (g : List ℕ) (o : Option ClientData)
      → Accounts c now g (requests_of o)
      → Accounts c now g (requests_of (kept c now o))
  Accounts-sweep now g none a = a
  Accounts-sweep now g (some d) a =
      elim (Bool-cases (all (is_expired c.window_ms now) d.requests)) [
        | inr live ↦ rw live a
        | inl gone ↦ rw gone (record {
          bounded = a.bounded;
          past = a.past;
          covered = λ t later. omega (
            arith,
            a.covered t later,
            count-is_live_of_expired c.window_ms now t d.requests later gone,
          );
        })
      ]

  -- A check accepts only below the limit.
  Accounts-check_client :
      (now : ℕ) (g : List ℕ) (d : ClientData)
      → Accounts c now g d.requests
      → Accounts c now
          ((if (check_client c now d).1.allowed then now ∷ [] else []) ++ g)
          (check_client c now d).0.requests
  Accounts-check_client now g d a =
      let pruned = Accounts-prune c now g d.requests a in
      elim (check_client-requests c now d) [
        | inl (yes', same, room) ↦
            rw (yes', same)
              (Accounts-push c now g _ pruned
                (rw (count-filter-is_live c.window_ms now now d.requests (omega arith)) room))
        | inr (no', same) ↦ rw (no', same) pruned
      ]

  requests-entry_of :
      (store : Store) (now : ℕ) → (entry_of store key now).requests ≡ stored_at store
  requests-entry_of store now = ground arith

  -- A request of another client changes nothing of the client's.
  step-check_other :
      (store : Store) (now : ℕ) (req : HttpRequest)
      → str_eq (c.key_generator req) key ≡ false
      → (granted c key store (check now req) ≡ [])
        × (stored_at (step c store (check now req)) ≡ stored_at store)
  unfolding step granted check_limit
  step-check_other store now req h =
      let k = c.key_generator req in
      ground (arith, lookup-insert k key (check_client c now (entry_of store k now)).0 store)

  step-check_same :
      (store : Store) (now : ℕ) (req : HttpRequest)
      → c.skip req ≡ false
      → str_eq (c.key_generator req) key ≡ true
      → (granted c key store (check now req)
          ≡ (if (check_client c now (entry_of store key now)).1.allowed then now ∷ [] else []))
        × (stored_at (step c store (check now req))
            ≡ (check_client c now (entry_of store key now)).0.requests)
  unfolding step granted check_limit
  step-check_same store now req taken same =
      let k = c.key_generator req in
      ground (
        arith,
        eq_iff k key,
        lookup-insert k key (check_client c now (entry_of store k now)).0 store,
      )

  module _
      (checked : (req : HttpRequest)
        → str_eq (c.key_generator req) key ≡ true
        → c.skip req ≡ false) where
    Accounts-step :
        (s : ℕ) (g : List ℕ) (store : Store) (e : Event)
        → s ≤ time e
        → IsUnique store
        → Accounts c s g (stored_at store)
        → Accounts c (time e) (granted c key store e ++ g) (stored_at (step c store e))
    Accounts-step s g store (sweep now) h u a =
        unfold step granted in
        rw (lookup-remove_expired_entries c now key store u)
          (Accounts-sweep now g (lookup key store) (Accounts-later c s now g _ h a))
    Accounts-step s g store (check now req) h u a =
        let later = Accounts-later c s now g (stored_at store) h a in
        elim (Bool-cases (str_eq (c.key_generator req) key)) [
          | inr differs ↦
              let (none_gained, kept') = step-check_other store now req differs in
              rw (none_gained, kept') later
          | inl same ↦
              let (gain, kept') = step-check_same store now req (checked req same) same in
              rw (gain, kept')
                (Accounts-check_client now g (entry_of store key now)
                  (rw (requests-entry_of store now) later))
        ]

    accepted-Accounts :
        (s : ℕ) (g : List ℕ) (store : Store) (es : List Event)
        → IsOrdered s es
        → IsUnique store
        → Accounts c s g (stored_at store)
        → (t : ℕ)
        → count (in_window c.window_ms t) (accepted c key store es)
            + count (in_window c.window_ms t) g
          ≤ c.max_requests
    unfolding accepted
    accepted-Accounts s g store [] o u a t = omega (arith, a.bounded t)
    accepted-Accounts s g store (e ∷ es) (h, o) u a t =
        let p = in_window c.window_ms t in
        let gain = granted c key store e in
        omega (
          arith,
          count-append p gain (accepted c key (step c store e) es),
          count-append p gain g,
          accepted-Accounts (time e) (gain ++ g) (step c store e) es o (step-IsUnique store e u)
              (Accounts-step s g store e h u a) t,
        )

-- From an empty store, whatever the requests of whatever clients and the sweeps between them, in
-- time order: of a client none of whose requests the configuration skips, the number of requests that
-- are allowed in any window of `window_ms` milliseconds is at most `max_requests`.
pub accepted-le-max_requests :
    (c : RateLimiterConfig) (key : String) (es : List Event) (t : ℕ)
    → ((req : HttpRequest) → str_eq (c.key_generator req) key ≡ true → c.skip req ≡ false)
    → IsOrdered 0 es
    → count (in_window c.window_ms t) (accepted c key [] es) ≤ c.max_requests
accepted-le-max_requests c key es t checked o =
    omega (arith, accepted-Accounts c key checked 0 [] [] es o tt (start c key) t)
  where
    start : (c : RateLimiterConfig) (key : String) → Accounts c 0 [] (stored_at c key [])
    start c key = record { bounded = λ t. omega arith; past = tt; covered = λ t h. omega arith }
