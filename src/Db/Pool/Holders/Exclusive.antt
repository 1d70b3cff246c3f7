-- ===== src/Db/Pool/Holders/Exclusive.antt =====
-- No connection is ever held by two calls.
use dashboard_template_api.Common.{
  ℕ, suc, ◌+◌, ◌≤◌, ◌≡◌, ◌⊎◌, true, false, some, List, [], ◌∷◌, ◌++◌, arith, ◌==◌, ==_iff,
  if◌then◌else◌, count, count-append, Bool-cases, inl, inr,
}
use dashboard_template_api.Db.Pool.{Connection, Pool, Outcome, Step, find_idle, set_in_use}
use dashboard_template_api.Db.Pool.Holders.{World, holds, drop_hold, after, granted}
use dashboard_template_api.Db.Pool.Holders.Counts.{
  is_id, is_idle, is_opened, count-is_idle-le, count-is_id-set_in_use, count-is_idle-set_in_use_ne,
  count-is_idle-set_in_use_self, find_idle-counts, holds-drop_hold_self, holds-drop_hold_ne,
}

pub record IsExclusive (w : World) : Type 0 where
  pub free :
      (id : ℕ)
      → holds id w.held + count (is_idle id) w.pool.pool + count (is_opened id) w.pool.openings ≤ 1
  pub unique :
      (id : ℕ)
      → count (is_id id) w.pool.pool
          + count (is_id id) w.pool.draining
          + count (is_opened id) w.pool.openings
        ≤ 1
  pub fresh :
      (id : ℕ)
      → w.next ≤ id
      → (holds id w.held ≡ 0)
        × (count (is_id id) w.pool.pool
              + count (is_id id) w.pool.draining
              + count (is_opened id) w.pool.openings
            ≡ 0)

module _ (w : World) (v : IsExclusive w) where
  -- A step that leaves the connections alone and hands none out.
  pub same_connections :
      (s : Step)
      → s.0.pool ≡ w.pool.pool
      → s.0.draining ≡ w.pool.draining
      → ((id : ℕ) → count (is_opened id) s.0.openings ≤ count (is_opened id) w.pool.openings)
      → granted s.1 ≡ []
      → IsExclusive (after s w.held w.next)
  same_connections (p, os) e d n g = record {
    free = λ id. rw (e, g) (omega (arith, v.free id, n id));
    unique = λ id. rw (e, d) (omega (arith, v.unique id, n id));
    fresh = λ id h. rw (e, d, g) ((v.fresh id h).0, omega (arith, (v.fresh id h).1, n id));
  }

  -- An idle connection is handed out.
  pub takes_idle :
      (c : Connection) (os : List Outcome) (p : Pool)
      → find_idle w.pool.pool ≡ some c
      → p.pool ≡ set_in_use true c.id w.pool.pool
      → p.draining ≡ w.pool.draining
      → p.openings ≡ w.pool.openings
      → granted os ≡ c.id ∷ []
      → IsExclusive (after (p, os) w.held w.next)
  takes_idle c os p found e d n g = record {
    free = λ id. rw (e, n, g) (free_at id);
    unique = λ id. rw (e, d, n, count-is_id-set_in_use) (v.unique id);
    fresh = λ id h. rw (e, d, n, g, count-is_id-set_in_use) (fresh_at id h);
  }
    where
      free_at :
          (id : ℕ)
          → holds id (c.id ∷ w.held)
              + count (is_idle id) (set_in_use true c.id w.pool.pool)
              + count (is_opened id) w.pool.openings
            ≤ 1
      free_at id = elim (Bool-cases (c.id == id)) [
        | inl same ↦ rw ((==_iff c.id id).0 same) (
            ground (
              arith,
              v.free id,
              v.unique id,
              find_idle-counts id w.pool.pool c found,
              (==_iff c.id id).0 same,
              count-is_idle-set_in_use_self id w.pool.pool,
            ))
        | inr other ↦
            ground (arith, v.free id, count-is_idle-set_in_use_ne id true c.id w.pool.pool)
      ]

      fresh_at :
          (id : ℕ)
          → w.next ≤ id
          → (holds id (c.id ∷ w.held) ≡ 0)
            × (count (is_id id) w.pool.pool
                  + count (is_id id) w.pool.draining
                  + count (is_opened id) w.pool.openings
                ≡ 0)
      fresh_at id h = ground (
        arith,
        v.fresh id h,
        find_idle-counts id w.pool.pool c found,
        count-is_idle-le id w.pool.pool,
      )

  -- An opened connection enters the pool in the hands of its call.
  pub takes_opened :
      (c : Connection) (s : Step)
      → c.in_use ≡ true
      → s.0.pool ≡ w.pool.pool ++ c ∷ []
      → s.0.draining ≡ w.pool.draining
      → ((id : ℕ)
          → count (is_opened id) s.0.openings + (if is_id id c then 1 else 0)
            ≡ count (is_opened id) w.pool.openings)
      → granted s.1 ≡ c.id ∷ []
      → IsExclusive (after s w.held w.next)
  takes_opened c (p, os) u e d n g = record {
    free = λ id.
        rw (e, g)
          (ground (arith, v.free id, n id, u, count-append (is_idle id) w.pool.pool (c ∷ [])));
    unique = λ id.
        rw (e, d) (ground (arith, v.unique id, n id, count-append (is_id id) w.pool.pool (c ∷ [])));
    fresh = λ id h.
        rw (e, d, g)
          (ground (arith, v.fresh id h, n id, count-append (is_id id) w.pool.pool (c ∷ [])));
  }

  -- A new connection is one that an opening has.
  pub numbers :
      (p : Pool)
      → p.pool ≡ w.pool.pool
      → p.draining ≡ w.pool.draining
      → ((id : ℕ)
          → count (is_opened id) p.openings
            ≤ count (is_opened id) w.pool.openings + (if w.next == id then 1 else 0))
      → IsExclusive (record w { pool = p; next = suc w.next })
  numbers p e d n = record {
    free =
        λ id. rw e (ground (arith, v.free id, v.fresh id, n id, count-is_idle-le id w.pool.pool));
    unique = λ id. rw (e, d) (ground (arith, v.unique id, v.fresh id, n id));
    fresh = λ id h. rw (e, d) (ground (arith, v.fresh id, n id));
  }

  module _ (id : ℕ) (has : 1 ≤ holds id w.held) where
    pub hands_over :
        (s : Step)
        → s.0.pool ≡ w.pool.pool
        → s.0.draining ≡ w.pool.draining
        → s.0.openings ≡ w.pool.openings
        → granted s.1 ≡ id ∷ []
        → IsExclusive (after s (drop_hold id w.held) w.next)
    hands_over (p, os) e d n g = record {
      free = λ j.
          rw (e, n, g)
            (ground (
              arith,
              v.free j,
              has,
              holds-drop_hold_self id w.held,
              holds-drop_hold_ne j id w.held,
            ));
      unique = λ j. rw (e, d, n) (v.unique j);
      fresh = λ j h.
          rw (e, d, n, g)
            (ground (
              arith,
              v.fresh j,
              has,
              holds-drop_hold_self id w.held,
              holds-drop_hold_ne j id w.held,
            ));
    }

    -- The connection goes back to the pool, or to the retired ones.
    pub gives_back :
        (s : Step)
        → (s.0.pool ≡ set_in_use false id w.pool.pool) ⊎ (s.0.pool ≡ w.pool.pool)
        → (s.0.draining ≡ w.pool.draining) ⊎ (s.0.draining ≡ set_in_use false id w.pool.draining)
        → s.0.openings ≡ w.pool.openings
        → granted s.1 ≡ []
        → IsExclusive (after s (drop_hold id w.held) w.next)
    gives_back s e d n g = record {
      free = λ j. rw (n, g) (free_at j e);
      unique = λ j. rw n (ground (arith, v.unique j, pool_count j e, draining_count j d));
      fresh = λ j h.
          rw (n, g)
            (ground (
              arith,
              v.fresh j,
              pool_count j e,
              draining_count j d,
              holds-drop_hold_self id w.held,
              holds-drop_hold_ne j id w.held,
            ));
    }
      where
        pool_count :
            (j : ℕ)
            → (s.0.pool ≡ set_in_use false id w.pool.pool) ⊎ (s.0.pool ≡ w.pool.pool)
            → count (is_id j) s.0.pool ≡ count (is_id j) w.pool.pool
        pool_count j (inl e') = rw (e', count-is_id-set_in_use)
        pool_count j (inr e') = rw e'

        draining_count :
            (j : ℕ)
            → (s.0.draining ≡ w.pool.draining)
              ⊎ (s.0.draining ≡ set_in_use false id w.pool.draining)
            → count (is_id j) s.0.draining ≡ count (is_id j) w.pool.draining
        draining_count j (inl e') = rw e'
        draining_count j (inr e') = rw (e', count-is_id-set_in_use)

        held_less :
            (j : ℕ) → holds j (drop_hold id w.held) + (if id == j then 1 else 0) ≡ holds j w.held
        held_less j = ground (
          arith,
          has,
          ==_iff id j,
          holds-drop_hold_self id w.held,
          holds-drop_hold_ne j id w.held,
        )

        free_at :
            (j : ℕ)
            → (s.0.pool ≡ set_in_use false id w.pool.pool) ⊎ (s.0.pool ≡ w.pool.pool)
            → holds j (drop_hold id w.held)
                + count (is_idle j) s.0.pool
                + count (is_opened j) w.pool.openings
              ≤ 1
        free_at j (inr e') = rw e' (omega (arith, v.free j, held_less j))
        free_at j (inl e') = rw e' (
            ground (
              arith,
              held_less j,
              v.free j,
              v.unique j,
              count-is_idle-le j (set_in_use false id w.pool.pool),
              count-is_id-set_in_use j false id w.pool.pool,
              count-is_idle-set_in_use_ne j false id w.pool.pool,
            ))
