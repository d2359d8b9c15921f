-- ===== src/CircuitBreaker.antt =====
-- TransferCore/CircuitBreaker.h and .cpp. The steady clock's reading, in nanoseconds, is an
-- argument `now` of the two methods that read it; logging is left out, and each method's body runs
-- under one lock, so a method is one step. The threshold and the count are an `int` in the source: the
-- model takes thresholds that are not negative, and counts that stay below 2 ^ 31.
pub mod History
mod Tests
use transfer_udt.Common.{
  ℕ, suc, ◌+◌, ◌-◌, ◌*◌, List, [], ◌∷◌, Bool, true, false, ◌&&◌, ◌||◌, ltb, leb, if◌then◌else◌,
}
use transfer_udt.Common.Bytes.{Bytes, codes}

pub data State : Type 0 where
  closed opened half_open : State

pub record CircuitBreaker : Type 0 where
  pub failure_count : ℕ
  pub last_failure : ℕ
  pub reset_timeout : ℕ  -- seconds
  pub failure_threshold : ℕ
  pub state : State
  pub service_name : Bytes

-- The constructor. A default-constructed time point is the clock's epoch.
unfoldable pub new : Bytes → ℕ → ℕ → CircuitBreaker
new service threshold timeout = record {
  failure_count = 0;
  last_failure = 0;
  reset_timeout = timeout;
  failure_threshold = threshold;
  state = State.closed;
  service_name = service;
}

abbrev pub is_opened : State → Bool
is_opened State.opened = true
is_opened _ = false

abbrev pub is_half_open : State → Bool
is_half_open State.half_open = true
is_half_open _ = false

abbrev pub is_closed : State → Bool
is_closed State.closed = true
is_closed _ = false

abbrev pub nanos_per_second : ℕ
nanos_per_second = 1_000_000_000

unfoldable pub should_attempt : ℕ → CircuitBreaker → CircuitBreaker × Bool
should_attempt now c =
    if is_opened c.state
    then (if leb (c.reset_timeout * nanos_per_second) (now - c.last_failure)
        then (record c { state = State.half_open }, true)
        else (c, false))
    else (c, true)

unfoldable pub report_success : CircuitBreaker → CircuitBreaker
report_success c = record c { failure_count = 0; state = State.closed }

unfoldable pub report_failure : ℕ → CircuitBreaker → CircuitBreaker
report_failure now c =
    let d = record c { failure_count = c.failure_count + 1; last_failure = now } in
    if is_half_open d.state || is_closed d.state && leb d.failure_threshold d.failure_count
    then record d { state = State.opened }
    else d

unfoldable pub is_circuit_open : CircuitBreaker → Bool
is_circuit_open c = is_opened c.state

unfoldable pub get_failure_count : CircuitBreaker → ℕ
get_failure_count c = c.failure_count

unfoldable pub reset : CircuitBreaker → CircuitBreaker
reset c = record c { failure_count = 0; state = State.closed }

abbrev state_string : State → Bytes
state_string State.closed = codes "CLOSED"
state_string State.opened = codes "OPEN"
state_string State.half_open = codes "HALF_OPEN"

unfoldable pub get_state_string : CircuitBreaker → Bytes
get_state_string c = state_string c.state
