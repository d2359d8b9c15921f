-- ===== src/AdaptiveChunkController.antt =====
-- The chunk size that follows the network (AgentUDTC++_v7.2/AdaptiveChunkController.cpp). The mutex
-- makes each method one step. The averages of type `double` only reach `snapshot`, so that their
-- arithmetic is a parameter; the product with 0.875 that sets the size is computed as IEEE 754 does.
use transfer_udt.Common.{
  ℕ, zero, suc, ◌+◌, ◌-◌, ◌*◌, ◌/◌, ◌%◌, ◌^◌, min, max, Bool, true, false, not, ◌&&◌, ◌||◌, ltb,
  leb, ◌==◌, if◌then◌else◌,
}
use transfer_udt.Common.Int.{ℤ, pos, negsuc}
mod Size
mod Moves
mod Tests

pub record Settings : Type 0 where
  pub enabled : Bool
  pub min_chunk_size_bytes : ℕ
  pub max_chunk_size_bytes : ℕ
  pub initial_chunk_size_bytes : ℕ
  pub target_ack_millis : ℤ

abbrev pub default_settings : Settings
default_settings = record {
  enabled = false;
  min_chunk_size_bytes = 32 * 1024;
  max_chunk_size_bytes = 4 * 1024 * 1024;
  initial_chunk_size_bytes = 256 * 1024;
  target_ack_millis = pos 700;
}

-- The arithmetic of `double` that the averages use.
pub record DoubleOps : Type 1 where
  pub Double : Type 0
  pub zero_double : Double
  pub from_uint64 : ℕ → Double
  -- sent bytes * 1000.0 / milliseconds
  pub throughput : Double → Double → Double
  -- 0.2 * sample + (1.0 - 0.2) * average
  pub ewma : Double → Double → Double

pub record AdaptiveChunkController (ops : DoubleOps) : Type 0 where
  pub settings : Settings
  pub current_chunk_size_bytes : ℕ
  pub ewma_ack_millis : ops.Double
  pub ewma_throughput_bytes_per_second : ops.Double
  pub successful_samples : ℕ
  pub failed_samples : ℕ
  pub consecutive_successes : ℕ
  pub consecutive_failures : ℕ

pub record Snapshot (ops : DoubleOps) : Type 0 where
  pub enabled : Bool
  pub suggested_chunk_size_bytes : ℕ
  pub ewma_ack_millis : ops.Double
  pub ewma_throughput_bytes_per_second : ops.Double
  pub successful_samples : ℕ
  pub failed_samples : ℕ
  pub consecutive_successes : ℕ
  pub consecutive_failures : ℕ

-- The two bounds are swapped when they stand the wrong way round.
abbrev pub clamp : ℕ → ℕ → ℕ → ℕ
clamp value min_value max_value =
    if ltb max_value min_value
    then max max_value (min value min_value)
    else max min_value (min value max_value)

abbrev positive_or : ℤ → ℕ → ℤ
positive_or (pos zero) n = pos n
positive_or (pos (suc k)) n = pos (suc k)
positive_or (negsuc k) n = pos n

abbrev pub normalize_settings : Settings → Settings
normalize_settings s =
    let low = if s.min_chunk_size_bytes == 0 then 32 * 1024 else s.min_chunk_size_bytes in
    let high = if ltb s.max_chunk_size_bytes low then low else s.max_chunk_size_bytes in
    let initial = if s.initial_chunk_size_bytes == 0 then low else s.initial_chunk_size_bytes in
    record s {
      min_chunk_size_bytes = low;
      max_chunk_size_bytes = high;
      initial_chunk_size_bytes = initial;
      target_ack_millis = positive_or s.target_ack_millis 700;
    }

abbrev pub kilo_16 : ℕ
kilo_16 = 16 * 1024

-- The nearest integer with 53 significant bits, ties to even, for `n` below 2 ^ (53 + k).
abbrev pub round_53 : ℕ → ℕ → ℕ
round_53 zero n = n
round_53 (suc k) n =
    let rest = round_53 k n in
    if ltb n (2 ^ (53 + k))
    then rest
    else let unit = 2 ^ suc k in
      let q = n / unit in
      let r = n % unit in
      if ltb (2 * r) unit || (2 * r == unit && q % 2 == 0) then q * unit else (q + 1) * unit

-- static_cast<uint64_t>(static_cast<double>(size) * 0.875)
unfoldable pub times_seven_eighths : ℕ → ℕ
times_seven_eighths size = round_53 14 (7 * round_53 11 size) / 8

-- std::max<int64_t>(milliseconds, 1)
abbrev pub at_least_one : ℤ → ℕ
at_least_one (pos n) = max n 1
at_least_one (negsuc n) = 1

-- The size after a success, before it is clamped.
abbrev pub next_size : ℕ → ℕ → ℕ → ℕ
next_size ack target size =
    if leb ack target
    then (size + max kilo_16 (size / 8)) % 2 ^ 64
    else if leb (target * 2) ack
    then size / 2
    else times_seven_eighths size

module _ (ops : DoubleOps) where
  unfoldable pub new : Settings → AdaptiveChunkController ops
  new given =
      let s = normalize_settings given in
      record {
        settings = s;
        current_chunk_size_bytes =
            clamp given.initial_chunk_size_bytes s.min_chunk_size_bytes s.max_chunk_size_bytes;
        ewma_ack_millis = ops.zero_double;
        ewma_throughput_bytes_per_second = ops.zero_double;
        successful_samples = 0;
        failed_samples = 0;
        consecutive_successes = 0;
        consecutive_failures = 0;
      }

  unfoldable pub is_enabled : AdaptiveChunkController ops → Bool
  is_enabled c = c.settings.enabled

  -- With nothing remaining known (0), the current size.
  unfoldable pub suggested_chunk_size : AdaptiveChunkController ops → ℕ → ℕ
  suggested_chunk_size c remaining =
      let low = c.settings.min_chunk_size_bytes in
      let high = c.settings.max_chunk_size_bytes in
      if ltb 0 remaining
      then (if ltb remaining low
          then remaining
          else clamp (min c.current_chunk_size_bytes remaining) low high)
      else clamp c.current_chunk_size_bytes low high

  unfoldable pub record_success : ℕ → ℤ → AdaptiveChunkController ops → AdaptiveChunkController ops
  record_success sent ack_time c =
      let ack = at_least_one ack_time in
      let target = at_least_one c.settings.target_ack_millis in
      let ack_double = ops.from_uint64 ack in
      let throughput = ops.throughput (ops.from_uint64 sent) ack_double in
      let first = c.successful_samples == 0 in
      if sent == 0 || not c.settings.enabled then c else record c {
        ewma_ack_millis = if first then ack_double else ops.ewma ack_double c.ewma_ack_millis;
        ewma_throughput_bytes_per_second =
            if first then throughput else ops.ewma throughput c.ewma_throughput_bytes_per_second;
        successful_samples = (c.successful_samples + 1) % 2 ^ 64;
        consecutive_successes = (c.consecutive_successes + 1) % 2 ^ 32;
        consecutive_failures = 0;
        current_chunk_size_bytes =
            clamp (next_size ack target c.current_chunk_size_bytes) c.settings.min_chunk_size_bytes
              c.settings.max_chunk_size_bytes;
      }

  unfoldable pub record_failure : AdaptiveChunkController ops → AdaptiveChunkController ops
  record_failure c = if not c.settings.enabled then c else record c {
    failed_samples = (c.failed_samples + 1) % 2 ^ 64;
    consecutive_failures = (c.consecutive_failures + 1) % 2 ^ 32;
    consecutive_successes = 0;
    current_chunk_size_bytes =
        clamp (c.current_chunk_size_bytes / 2) c.settings.min_chunk_size_bytes
          c.settings.max_chunk_size_bytes;
  }

  unfoldable pub snapshot : AdaptiveChunkController ops → Snapshot ops
  snapshot c = record {
    enabled = c.settings.enabled;
    suggested_chunk_size_bytes = c.current_chunk_size_bytes;
    ewma_ack_millis = c.ewma_ack_millis;
    ewma_throughput_bytes_per_second = c.ewma_throughput_bytes_per_second;
    successful_samples = c.successful_samples;
    failed_samples = c.failed_samples;
    consecutive_successes = c.consecutive_successes;
    consecutive_failures = c.consecutive_failures;
  }
