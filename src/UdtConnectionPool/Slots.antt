-- ===== src/UdtConnectionPool/Slots.antt =====
-- The slots of the pool over a turn of acquire (AgentUDTC++_v7.2/UDTConnectionPool.cpp).
use transfer_udt.Common.{
  ℕ, ◌+◌, ◌-◌, ◌≤◌, ◌≡◌, refl, sym, subst, not, Bool, true, false, List, [], ◌∷◌, length, Option,
  none, some, arith, if◌then◌else◌,
}
use transfer_udt.UdtConnectionPool.{acquire, pop_connected, after_pop, can_go_on}
use transfer_udt.UdtConnectionPool.Counts.{count}
use transfer_udt.UdtConnectionPool.Runs.{System, probed, places, turned}

abbrev pub slots : System → ℕ
slots s =
    length s.pool.available_connections
    + length s.held
    + s.creating
    + length s.returning
    + length (probed s.keep_alive)
    + s.lost

abbrev one : Option ℕ → List ℕ
one none = []
one (some c) = c ∷ []

pop_connected-length :
    (connected : ℕ → Bool) (xs : List ℕ) (n : ℕ)
    → let r = pop_connected connected xs (length xs + n) in
      (length r.1 + length (one r.0) + n ≡ r.2)
unfolding pop_connected
pop_connected-length connected [] n = refl
pop_connected-length connected (c ∷ xs) n = ground (arith, pop_connected-length connected xs n)

pop_connected-count :
    (connected : ℕ → Bool) (xs : List ℕ) (n c : ℕ)
    → let r = pop_connected connected xs n in (count c r.1 + count c (one r.0) ≤ count c xs)
unfolding pop_connected
pop_connected-count connected [] n c = omega arith
pop_connected-count connected (x ∷ xs) n c =
    ground (arith, pop_connected-count connected xs (n - 1) c)

pop_connected-size :
    (connected : ℕ → Bool) (xs : List ℕ) (n : ℕ) → (pop_connected connected xs n).2 ≤ n
unfolding pop_connected
pop_connected-size connected [] n = omega arith
pop_connected-size connected (x ∷ xs) n = ground (arith, pop_connected-size connected xs (n - 1))

pub record IsConserved (s : System) : Type 0 where
  pub sized : s.pool.current_size ≡ slots s
  pub bounded : s.pool.current_size ≤ s.pool.max_size
  pub single : (c : ℕ) → places c s ≤ 1

abbrev others : System → ℕ
others s = length s.held + s.creating + length s.returning + length (probed s.keep_alive) + s.lost

after_pop-IsConserved :
    (s : System) (r : Option ℕ × List ℕ × ℕ)
    → IsConserved s
    → length r.1 + length (one r.0) + others s ≡ r.2
    → r.2 ≤ s.pool.current_size
    → ((c : ℕ) → count c r.1 + count c (one r.0) ≤ count c s.pool.available_connections)
    → IsConserved (turned s (after_pop s.pool r))
after_pop-IsConserved s (some c, rest, size) h l b k = record {
  sized = omega arith;
  bounded = omega (arith, h.bounded);
  single = λ x. omega (arith, h.single x, k x);
}
after_pop-IsConserved s (none, rest, size) h l b k = record {
  sized = ground arith;
  bounded = ground (arith, h.bounded);
  single = λ x. ground (arith, h.single x, k x);
}

-- Either branch of a test.
pub if-IsConserved :
    {A : Type 0} (f : A → System) (b : Bool) (x y : A)
    → IsConserved (f x)
    → IsConserved (f y)
    → IsConserved (f (if b then x else y))
if-IsConserved f true x y h k = h
if-IsConserved f false x y h k = k

pub turn-IsConserved :
    (s : System) (connected : ℕ → Bool)
    → IsConserved s
    → IsConserved (turned s (acquire connected s.pool))
unfolding acquire
turn-IsConserved s connected h = if-IsConserved (turned s) (not (can_go_on s.pool)) _ _ same (
    if-IsConserved (turned s) s.pool.shutting_down _ _ same (
      after_pop-IsConserved s popped h lengths
        (pop_connected-size connected s.pool.available_connections s.pool.current_size)
        (pop_connected-count connected s.pool.available_connections s.pool.current_size)))
  where
    same : IsConserved (record s { pool = s.pool })
    same = record { sized = h.sized; bounded = h.bounded; single = h.single }

    popped : Option ℕ × List ℕ × ℕ
    popped = pop_connected connected s.pool.available_connections s.pool.current_size

    popped_sized : s.pool.current_size ≡ length s.pool.available_connections + others s
    popped_sized = omega (arith, h.sized)

    lengths : length popped.1 + length (one popped.0) + others s ≡ popped.2
    lengths =
        subst
          (λ n.
            let r = pop_connected connected s.pool.available_connections n in
            (length r.1 + length (one r.0) + others s ≡ r.2))
          (sym popped_sized)
          (pop_connected-length connected s.pool.available_connections (others s))
