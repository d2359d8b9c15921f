-- ===== src/UdtConnectionPool/Serves.antt =====
-- What a turn of acquire ends in (AgentUDTC++_v7.2/UDTConnectionPool.cpp).
use transfer_udt.Common.{
  ℕ, ◌-◌, ◌≤◌, ◌<◌, ◌≡◌, ◌||◌, not, Bool, true, false, List, [], ◌∷◌, length, arith, ltb,
}
use transfer_udt.UdtConnectionPool.{
  UdtConnectionPool, Turn, may_create, pooled, acquire, pop_connected, after_pop, is_empty,
  can_go_on,
}
use transfer_udt.UdtConnectionPool.Runs.{System, start, Reach}
use transfer_udt.UdtConnectionPool.Slots.{IsConserved}
use transfer_udt.UdtConnectionPool.Conserved.{Reach-IsConserved}

abbrev pub serves : (ℕ → Bool) → Turn → Bool
serves connected (pooled c) = connected c
serves connected may_create = true
serves connected _ = false

-- A connection that is given is connected, and one that is passed over leaves its slot.
pop_connected-serves :
    (connected : ℕ → Bool) (p : UdtConnectionPool) (xs : List ℕ) (n : ℕ)
    → p.keep_alive_in_flight ≡ 0
    → n < p.max_size
    → serves connected (after_pop p (pop_connected connected xs n)).0 ≡ true
unfolding pop_connected
pop_connected-serves connected p [] n e l = ground (arith, e)
pop_connected-serves connected p (x ∷ xs) n e l =
    ground (arith, pop_connected-serves connected p xs (n - 1) e)

first-serves :
    (connected : ℕ → Bool) (p : UdtConnectionPool) (xs : List ℕ) (n : ℕ)
    → p.keep_alive_in_flight ≡ 0
    → n ≤ p.max_size
    → length xs ≤ n
    → (not (is_empty xs) || ltb n p.max_size) ≡ true
    → serves connected (after_pop p (pop_connected connected xs n)).0 ≡ true
unfolding pop_connected
first-serves connected p [] n e b k l = ground arith
first-serves connected p (x ∷ xs) n e b k l =
    ground (arith, pop_connected-serves connected p xs (n - 1) e)

-- Whatever happened before in the pool: a turn of acquire that finds neither a shutdown nor a
-- keep-alive pass under way, and whose wait has ended without a timeout, gives a connection that is
-- connected or reserves a slot for a new one; the fallback for a pool that is full and empty is not reached.
pub acquire-serves :
    (m : ℕ) {s : System} (connected : ℕ → Bool)
    → Reach (start m) s
    → s.finished ≡ false
    → s.pool.shutting_down ≡ false
    → s.pool.keep_alive_in_flight ≡ 0
    → can_go_on s.pool ≡ true
    → serves connected (acquire connected s.pool).0 ≡ true
unfolding acquire
acquire-serves m {s = s} connected r f d e g = ground (
  arith,
  d,
  g,
  first-serves connected s.pool s.pool.available_connections s.pool.current_size e h.bounded
      (omega (arith, h.sized)),
)
  where
    h : IsConserved s
    h = Reach-IsConserved m r f
