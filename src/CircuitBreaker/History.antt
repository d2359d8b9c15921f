-- ===== src/CircuitBreaker/History.antt =====
-- The circuit breaker over whole histories of calls (TransferCore/CircuitBreaker.cpp).
use transfer_udt.Common.{
  ℕ, suc, ◌+◌, ◌*◌, ◌≤◌, ◌<◌, ◌≡◌, refl, ◌↔◌, List, [], ◌∷◌, Bool, true, false, arith, All, map, ap,
}
use transfer_udt.Common.Bytes.{Bytes}
use transfer_udt.CircuitBreaker.{
  CircuitBreaker, State, new, should_attempt, report_success, report_failure, reset,
  is_circuit_open, is_opened, get_failure_count, nanos_per_second,
}

-- A call on the object, with the clock's reading where the method takes one.
pub data Call : Type 0 where
  attempt failure : ℕ → Call
  success manual_reset : Call

unfoldable pub step : CircuitBreaker → Call → CircuitBreaker
step c (Call.attempt now) = (should_attempt now c).0
step c (Call.failure now) = report_failure now c
step c Call.success = report_success c
step c Call.manual_reset = reset c

-- A history, newest call first.
unfoldable pub run : CircuitBreaker → List Call → CircuitBreaker
run c [] = c
run c (e ∷ h) = step (run c h) e

-- The failures since the last success or reset.
abbrev pub consecutive_failures : List Call → ℕ
consecutive_failures [] = 0
consecutive_failures (Call.attempt now ∷ h) = consecutive_failures h
consecutive_failures (Call.failure now ∷ h) = suc (consecutive_failures h)
consecutive_failures (Call.success ∷ h) = 0
consecutive_failures (Call.manual_reset ∷ h) = 0

record Matches (threshold timeout n : ℕ) (c : CircuitBreaker) : Type 0 where
  kept_threshold : c.failure_threshold ≡ threshold
  kept_timeout : c.reset_timeout ≡ timeout
  counted : c.failure_count ≡ n
  closed_below : c.state ≡ State.closed → n < threshold
  below_closed : n < threshold → c.state ≡ State.closed

run-Matches :
    (service : Bytes) (threshold timeout : ℕ) (h : List Call)
    → 0 < threshold
    → Matches threshold timeout (consecutive_failures h) (run (new service threshold timeout) h)
unfolding run new step should_attempt report_success report_failure reset
run-Matches service threshold timeout [] p = ground arith
run-Matches service threshold timeout (Call.attempt now ∷ h) p =
    ground (arith, run-Matches service threshold timeout h p)
run-Matches service threshold timeout (Call.failure now ∷ h) p =
    ground (arith, run-Matches service threshold timeout h p)
run-Matches service threshold timeout (Call.success ∷ h) p =
    ground (arith, run-Matches service threshold timeout h p)
run-Matches service threshold timeout (Call.manual_reset ∷ h) p =
    ground (arith, run-Matches service threshold timeout h p)

-- After any history of calls on a breaker with a positive threshold, the reported count is the
-- number of failures since the last success or reset, and the circuit is closed exactly when that
-- number is below the threshold.
pub closed_iff :
    (service : Bytes) (threshold timeout : ℕ) (h : List Call)
    → 0 < threshold
    → (get_failure_count (run (new service threshold timeout) h) ≡ consecutive_failures h)
      × (((run (new service threshold timeout) h).state ≡ State.closed)
          ↔ (consecutive_failures h < threshold))
unfolding get_failure_count
closed_iff service threshold timeout h p =
    let m = run-Matches service threshold timeout h p in
    (m.counted, (m.closed_below, m.below_closed))

-- The answers to a row of attempts, in order, and the breaker after them.
unfoldable pub attempts : CircuitBreaker → List ℕ → CircuitBreaker × List Bool
attempts c [] = (c, [])
attempts c (now ∷ rest) =
    let r = should_attempt now c in let more = attempts r.0 rest in (more.0, r.1 ∷ more.1)

abbrev Within : CircuitBreaker → ℕ → Type 0
Within c now = (c.last_failure ≤ now) × (now < c.last_failure + c.reset_timeout * nanos_per_second)

attempt_denied :
    (c : CircuitBreaker) (now : ℕ)
    → c.state ≡ State.opened
    → Within c now
    → should_attempt now c ≡ (c, false)
unfolding should_attempt
attempt_denied c now o h = ground arith

attempt_granted :
    (c : CircuitBreaker) (now : ℕ)
    → c.state ≡ State.opened
    → c.last_failure + c.reset_timeout * nanos_per_second ≤ now
    → should_attempt now c ≡ (record c { state = State.half_open }, true)
unfolding should_attempt
attempt_granted c now o h = ground arith

attempts_denied :
    (c : CircuitBreaker) (times : List ℕ)
    → c.state ≡ State.opened
    → All (Within c) times
    → attempts c times ≡ (c, map (λ now. false) times)
unfolding attempts
attempts_denied c [] o h = refl
attempts_denied c (now ∷ rest) o h = rw (attempt_denied c now o h.0, attempts_denied c rest o h.1)

failure_opens :
    (c : CircuitBreaker) (threshold timeout n t : ℕ)
    → Matches threshold timeout n c
    → threshold ≤ n + 1
    → let d = report_failure t c in
      (d.state ≡ State.opened) × (d.last_failure ≡ t) × (d.reset_timeout ≡ timeout)
unfolding report_failure
failure_opens c threshold timeout n t m h = ground arith

-- A failure that brings those since the last success or reset to the threshold or beyond opens the
-- circuit: attempts within the reset timeout of it are all refused and change nothing, and then the
-- first attempt at or after the timeout is granted and makes the circuit half open.
pub opens_for_timeout :
    (service : Bytes) (threshold timeout : ℕ) (h : List Call) (t : ℕ) (times : List ℕ) (later : ℕ)
    → 0 < threshold
    → threshold ≤ consecutive_failures (Call.failure t ∷ h)
    → All (λ now. (t ≤ now) × (now < t + timeout * nanos_per_second)) times
    → t + timeout * nanos_per_second ≤ later
    → let c = run (new service threshold timeout) (Call.failure t ∷ h) in
      (is_circuit_open c ≡ true)
      × (attempts c times ≡ (c, map (λ now. false) times))
      × (should_attempt later (attempts c times).0 ≡ (record c { state = State.half_open }, true))
unfolding run step is_circuit_open
opens_for_timeout service threshold timeout h t times later p q w l =
    (ap is_opened o, denied, rw denied (attempt_granted c later o (rw (lf, rt) l)))
  where
    c : CircuitBreaker
    c = report_failure t (run (new service threshold timeout) h)

    facts : (c.state ≡ State.opened) × (c.last_failure ≡ t) × (c.reset_timeout ≡ timeout)
    facts =
        failure_opens (run (new service threshold timeout) h) threshold timeout
          (consecutive_failures h) t (run-Matches service threshold timeout h p) (omega arith)

    o : c.state ≡ State.opened
    o = facts.0

    lf : c.last_failure ≡ t
    lf = facts.1

    rt : c.reset_timeout ≡ timeout
    rt = facts.2

    denied : attempts c times ≡ (c, map (λ now. false) times)
    denied = attempts_denied c times o (rw (lf, rt) w)
