-- ===== src/UdtConnectionPool/Moves.antt =====
-- The slots of the pool over release and the keep-alive pass
-- (AgentUDTC++_v7.2/UDTConnectionPool.cpp).
use transfer_udt.Common.{
  ℕ, suc, ◌+◌, ◌-◌, ◌≡◌, sym, ap, subst, ◌&&◌, not, ◌∙◌, Bool, true, false, List, [], ◌∷◌, ◌++◌,
  length, arith, length-append,
}
use transfer_udt.UdtConnectionPool.{
  UdtConnectionPool, handle_dead_connection, release, give_back, probe, return_survivors, dead,
}
use transfer_udt.UdtConnectionPool.Counts.{count, count-append}
use transfer_udt.UdtConnectionPool.Runs.{
  asleep, probing, System, probed, given_back, snapshot_taken, survived,
}
use transfer_udt.UdtConnectionPool.Slots.{IsConserved, if-IsConserved}

pub gives-IsConserved :
    (s : System) (connected : ℕ → Bool) (c : ℕ) (before after : List ℕ)
    → s.held ≡ before ++ (c ∷ after)
    → IsConserved s
    → IsConserved (given_back s (before ++ after) c (give_back connected c s.pool))
unfolding give_back handle_dead_connection
gives-IsConserved s connected c before after e h =
    if-IsConserved (given_back s (before ++ after) c) (connected c && not s.pool.shutting_down) _ _
      (record {
        sized = omega (arith, h.sized, held, length-append before after);
        bounded = h.bounded;
        single = λ x. omega (arith, h.single x, counted x, count-append x before after);
      })
      (record {
        sized = omega (arith, h.sized, held, length-append before after);
        bounded = omega (arith, h.bounded);
        single = λ x. omega (arith, h.single x, counted x, count-append x before after);
      })
  where
    held : length s.held ≡ length before + suc (length after)
    held = ap length e ∙ length-append before (c ∷ after)

    counted : (x : ℕ) → count x s.held ≡ count x before + count x (c ∷ after)
    counted x = ap (count x) e ∙ count-append x before (c ∷ after)

pub releases-IsConserved :
    (s : System) (c : ℕ) (before after : List ℕ)
    → s.returning ≡ before ++ (c ∷ after)
    → IsConserved s
    → IsConserved (record s { returning = before ++ after; pool = release c s.pool })
unfolding release
releases-IsConserved s c before after e h = record {
  sized = ground (
    arith,
    h.sized,
    h.bounded,
    returning,
    length-append before after,
    length-append s.pool.available_connections (c ∷ []),
  );
  bounded = ground (arith, h.bounded);
  single = λ x. ground (
    arith,
    h.single x,
    counted x,
    count-append x before after,
    count-append x s.pool.available_connections (c ∷ []),
  );
}
  where
    returning : length s.returning ≡ length before + suc (length after)
    returning = ap length e ∙ length-append before (c ∷ after)

    counted : (x : ℕ) → count x s.returning ≡ count x before + count x (c ∷ after)
    counted x = ap (count x) e ∙ count-append x before (c ∷ after)

pub snapshot_taken-IsConserved :
    (s : System) (xs : List ℕ)
    → s.pool.available_connections ≡ xs
    → s.keep_alive ≡ asleep
    → IsConserved s
    → IsConserved (snapshot_taken s (xs, record s.pool { available_connections = [] }))
snapshot_taken-IsConserved s xs a e h = here xs (ap length a) (λ x. ap (count x) a)
  where
    none_probed : length (probed s.keep_alive) ≡ 0
    none_probed = ap (λ k. length (probed k)) e

    here :
        (xs : List ℕ)
        → length s.pool.available_connections ≡ length xs
        → ((x : ℕ) → count x s.pool.available_connections ≡ count x xs)
        → IsConserved (snapshot_taken s (xs, record s.pool { available_connections = [] }))
    here [] l k = record {
      sized = omega (arith, h.sized, l);
      bounded = h.bounded;
      single = λ x. omega (arith, h.single x, k x);
    }
    here (c ∷ xs) l k = record {
      sized = omega (arith, h.sized, l, none_probed);
      bounded = h.bounded;
      single = λ x. omega (arith, h.single x, k x, ap (λ k. count x (probed k)) e);
    }

pub probes-IsConserved :
    (s : System) (alive : Bool) (c : ℕ) (todo survivors : List ℕ)
    → s.keep_alive ≡ probing (c ∷ todo) survivors
    → IsConserved s
    → IsConserved (record s {
      keep_alive = probing todo (survived alive c survivors);
      pool = probe alive s.pool;
    })
unfolding probe handle_dead_connection
probes-IsConserved s alive c todo survivors e h = here alive
  where
    was : length (probed s.keep_alive) ≡ suc (length todo + length survivors)
    was = ap (λ k. length (probed k)) e ∙ ap suc (length-append todo survivors)

    counted : (x : ℕ) → count x (probed s.keep_alive) ≡ count x (c ∷ todo) + count x survivors
    counted x = ap (λ k. count x (probed k)) e ∙ count-append x (c ∷ todo) survivors

    here :
        (alive : Bool)
        → IsConserved (record s {
          keep_alive = probing todo (survived alive c survivors);
          pool = probe alive s.pool;
        })
    here true = record {
      sized = omega (
        arith,
        h.sized,
        was,
        length-append survivors (c ∷ []),
        length-append todo (survivors ++ (c ∷ [])),
      );
      bounded = h.bounded;
      single = λ x. omega (
        arith,
        h.single x,
        counted x,
        count-append x survivors (c ∷ []),
        count-append x todo (survivors ++ (c ∷ [])),
      );
    }
    here false = record {
      sized = omega (arith, h.sized, was, length-append todo survivors);
      bounded = omega (arith, h.bounded);
      single = λ x. omega (arith, h.single x, counted x, count-append x todo survivors);
    }

abbrev sized_by : UdtConnectionPool → ℕ → UdtConnectionPool
sized_by p n = record p { current_size = n }

dead_lem :
    (xs : List ℕ) (p : UdtConnectionPool) → dead xs p ≡ sized_by p (p.current_size - length xs)
unfolding handle_dead_connection
dead_lem [] p = ap (sized_by p) (omega arith)
dead_lem (c ∷ xs) p = dead_lem xs (handle_dead_connection p) ∙ ap (sized_by p) (omega arith)

pub ends_pass-IsConserved :
    (s : System) (survivors : List ℕ)
    → s.keep_alive ≡ probing [] survivors
    → IsConserved s
    → IsConserved (record s { keep_alive = asleep; pool = return_survivors survivors s.pool })
unfolding return_survivors
ends_pass-IsConserved s survivors e h =
    if-IsConserved {A = UdtConnectionPool} (λ p. record s { keep_alive = asleep; pool = p })
      s.pool.shutting_down _ _
      (subst (λ p. IsConserved (record s { keep_alive = asleep; pool = p }))
        (sym (dead_lem survivors s.pool))
        (record {
          sized = omega (arith, h.sized, was);
          bounded = omega (arith, h.bounded);
          single = λ x. omega (arith, h.single x, counted x);
        }))
      (record {
        sized = omega (arith, h.sized, was, length-append s.pool.available_connections survivors);
        bounded = h.bounded;
        single = λ x.
            omega
              (arith, h.single x, counted x, count-append x s.pool.available_connections survivors);
      })
  where
    was : length (probed s.keep_alive) ≡ length survivors
    was = ap (λ k. length (probed k)) e

    counted : (x : ℕ) → count x (probed s.keep_alive) ≡ count x survivors
    counted x = ap (λ k. count x (probed k)) e
