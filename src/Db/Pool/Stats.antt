-- ===== src/Db/Pool/Stats.antt =====
-- src/db/pool.ts, `getStats`: the snapshot of the pool that /ready and /metrics show.
use dashboard_template_api.Common.{
  ℕ, zero, suc, ◌+◌, ◌-◌, ◌*◌, ◌/◌, ◌≤◌, ◌≡◌, refl, sym, ◌∙◌, ◌⊎◌, inl, inr, true, Option, none,
  some, List, [], ◌∷◌, String, arith, ltb, leb, leb→le, length, count, filter, get_elem?,
  Bool-cases, count-le-length, length-filter,
}
use dashboard_template_api.Common.Sort.{sort, IsSorted, count-sort, sort-IsSorted}
use dashboard_template_api.Db.Pool.{Pool, AcquireCounters}

pub record WaitMs : Type 0 where
  pub avg : ℕ
  pub p95 : ℕ
  pub max : ℕ
  pub samples : ℕ

pub record PoolStats : Type 0 where
  pub available : ℕ
  pub using : ℕ
  pub total : ℕ
  pub creating : ℕ
  pub waiting : ℕ
  pub max_connections : ℕ
  pub attached_catalogs : List String
  pub acquire_counters : AcquireCounters
  pub wait_ms : WaitMs

abbrev pub sum : List ℕ → ℕ
sum [] = 0
sum (w ∷ ws) = w + sum ws

-- `Math.round(total / n)`
abbrev pub rounded_average : List ℕ → ℕ
rounded_average [] = 0
rounded_average (w ∷ ws) = (2 * sum (w ∷ ws) + length (w ∷ ws)) / (2 * length (w ∷ ws))

abbrev pub or_zero : Option ℕ → ℕ
or_zero none = 0
or_zero (some w) = w

abbrev pub sorted_waits : List ℕ → List ℕ
sorted_waits samples = sort leb samples

-- the wait at the index 95 % of the way up
unfoldable pub wait_ms_of : List ℕ → WaitMs
unfolding sort
wait_ms_of samples = record {
  avg = rounded_average samples;
  p95 = or_zero (get_elem? (sorted_waits samples) (length (sorted_waits samples) * 95 / 100));
  max = or_zero (get_elem? (sorted_waits samples) (length (sorted_waits samples) - 1));
  samples = length samples;
}

unfoldable pub get_stats : List String → Pool → PoolStats
unfolding wait_ms_of
get_stats aliases p =
    let busy = length (filter (λ c. c.in_use) p.pool) in
    record {
      available = length p.pool - busy;
      using = busy;
      total = length p.pool;
      creating = p.creating;
      waiting = length p.waiters;
      max_connections = p.max_connections;
      attached_catalogs = aliases;
      acquire_counters = p.acquire_counters;
      wait_ms = wait_ms_of p.wait_samples;
    }

leb-total : (x y : ℕ) → (leb x y ≡ true) ⊎ (leb y x ≡ true)
leb-total x y = elim (Bool-cases (leb x y)) [ inl e ↦ inl e | inr e ↦ inr (ground (arith, e)) ]

head_least :
    (y x : ℕ) (ys : List ℕ) (i : ℕ) → IsSorted leb (y ∷ ys) → get_elem? ys i ≡ some x → y ≤ x
unfolding IsSorted
head_least y x [] i h e = cc
head_least y x (z ∷ ys) zero (first, h) e =
    let same : z ≡ x = cc e in omega (arith, leb→le y z first, same)
head_least y x (z ∷ ys) (suc i) (first, h) e =
    omega (arith, leb→le y z first, head_least z x ys i h e)

-- At least the elements up to an index are not above the one there.
count_above :
    (x : ℕ) (xs : List ℕ) (i : ℕ)
    → IsSorted leb xs
    → get_elem? xs i ≡ some x
    → count (λ w. ltb x w) xs + suc i ≤ length xs
unfolding IsSorted
count_above x [] i h e = cc
count_above x (y ∷ ys) zero h e =
    let same : y ≡ x = cc e in ground (arith, same, count-le-length (ltb x) ys)
count_above x (y ∷ []) (suc i) h e = cc
count_above x (y ∷ z ∷ ys) (suc i) (first, h) e =
    let below = head_least y x (z ∷ ys) i (first, h) e in
    ground (arith, below, count_above x (z ∷ ys) i h e)

get_elem?-or_zero :
    (xs : List ℕ) (i : ℕ) → suc i ≤ length xs → get_elem? xs i ≡ some (or_zero (get_elem? xs i))
get_elem?-or_zero [] i h = absurd (omega (arith, h))
get_elem?-or_zero (x ∷ xs) zero h = refl
get_elem?-or_zero (x ∷ xs) (suc i) h = get_elem?-or_zero xs i (omega (arith, h))

above_at :
    (xs : List ℕ) (i : ℕ)
    → IsSorted leb xs
    → i ≤ length xs - 1
    → count (λ w. ltb (or_zero (get_elem? xs i)) w) xs + i ≤ length xs - 1
above_at [] i h bound = omega (arith, bound)
above_at (x ∷ xs) i h bound =
    let at =
      count_above (or_zero (get_elem? (x ∷ xs) i)) (x ∷ xs) i h
        (get_elem?-or_zero (x ∷ xs) i (omega (arith, bound))) in
    omega (arith, at)

count_all : (xs : List ℕ) → count (λ w. true) xs ≡ length xs
count_all [] = refl
count_all (x ∷ xs) = omega (arith, count_all xs)

length-sort : (samples : List ℕ) → length (sort leb samples) ≡ length samples
length-sort samples =
    sym (count_all (sort leb samples)) ∙ count-sort leb (λ w. true) samples ∙ count_all samples

above_samples :
    (samples : List ℕ) (i : ℕ)
    → i ≤ length (sort leb samples) - 1
    → count (λ w. ltb (or_zero (get_elem? (sort leb samples) i)) w) samples + i ≤ length samples - 1
above_samples samples i bound =
    let at = above_at (sort leb samples) i (sort-IsSorted leb leb-total samples) bound in
    let same = count-sort leb (λ w. ltb (or_zero (get_elem? (sort leb samples) i)) w) samples in
    omega (arith, at, same, length-sort samples)

none_above_max : (samples : List ℕ) → count (λ w. ltb (wait_ms_of samples).max w) samples ≡ 0
unfolding wait_ms_of
none_above_max samples =
    let at = above_samples samples (length (sort leb samples) - 1) (omega arith) in
    omega (arith, at, length-sort samples)

few_above_p95 :
    (samples : List ℕ)
    → count (λ w. ltb (wait_ms_of samples).p95 w) samples + length samples * 95 / 100
      ≤ length samples - 1
unfolding wait_ms_of
few_above_p95 samples =
    let at = above_samples samples (length (sort leb samples) * 95 / 100) (omega arith) in
    omega (arith, at, length-sort samples)

-- In a snapshot, the free connections and those in use are all of the pool's; no recorded wait is above
-- `max`; and the waits above `p95` are at most as many as the samples that stand, in order, after the
-- index at 95 % of their number.
pub get_stats_lem :
    (aliases : List String) (p : Pool)
    → let stats = get_stats aliases p in
      (stats.available + stats.using ≡ stats.total)
      × (count (λ w. ltb stats.wait_ms.max w) p.wait_samples ≡ 0)
      × (count (λ w. ltb stats.wait_ms.p95 w) p.wait_samples + length p.wait_samples * 95 / 100
          ≤ length p.wait_samples - 1)
unfolding get_stats wait_ms_of
get_stats_lem aliases p = (
  omega (arith, length-filter (λ c. c.in_use) p.pool, count-le-length (λ c. c.in_use) p.pool),
  none_above_max p.wait_samples,
  few_above_p95 p.wait_samples,
)
