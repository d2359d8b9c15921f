-- ===== src/CircuitBreaker/Tests.antt =====
-- The theorems on the circuit breaker of TransferCore/CircuitBreaker.cpp, at a breaker that opens
-- after two failures for one second.
use transfer_udt.Common.{◌≡◌, ◌↔◌, ◌<◌, List, [], ◌∷◌, true, false, arith}
use transfer_udt.Common.Bytes.{codes}
use transfer_udt.CircuitBreaker.{State, new, should_attempt, is_circuit_open, get_failure_count}
use transfer_udt.CircuitBreaker.History.{Call, run, attempts, closed_iff, opens_for_timeout}

abbrev one_failure : List Call
one_failure = Call.failure 10 ∷ Call.attempt 9 ∷ Call.success ∷ []

closed_iff_example :
    (get_failure_count (run (new (codes "db") 2 1) one_failure) ≡ 1)
    × (((run (new (codes "db") 2 1) one_failure).state ≡ State.closed) ↔ (1 < 2))
closed_iff_example = closed_iff (codes "db") 2 1 one_failure (omega arith)

opens_for_timeout_example :
    let c = run (new (codes "db") 2 1) (Call.failure 20 ∷ one_failure) in
    (is_circuit_open c ≡ true)
    × (attempts c (21 ∷ 22 ∷ []) ≡ (c, false ∷ false ∷ []))
    × (should_attempt 1_000_000_020 (attempts c (21 ∷ 22 ∷ [])).0
        ≡ (record c { state = State.half_open }, true))
opens_for_timeout_example =
    opens_for_timeout (codes "db") 2 1 one_failure 20 (21 ∷ 22 ∷ []) 1_000_000_020 (omega arith)
      (omega arith) (omega arith) (omega arith)
