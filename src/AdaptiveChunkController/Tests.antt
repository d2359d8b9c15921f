-- ===== src/AdaptiveChunkController/Tests.antt =====
-- The theorems on the chunk size (AgentUDTC++_v7.2/AdaptiveChunkController.cpp), at the default
-- settings with the controller enabled.
use transfer_udt.Common.{
  ℕ, ◌+◌, ◌*◌, ◌/◌, ◌^◌, ◌≤◌, ◌<◌, ◌≡◌, refl, min, max, true, List, [], ◌∷◌, replicate, map, arith,
}
use transfer_udt.Common.Int.{pos}
use transfer_udt.AdaptiveChunkController.{
  Settings, DoubleOps, AdaptiveChunkController, default_settings, normalize_settings, new,
  suggested_chunk_size, record_success, record_failure, times_seven_eighths, kilo_16,
}
use transfer_udt.AdaptiveChunkController.Size.{Call, run, step, suggestion_bounded}
use transfer_udt.AdaptiveChunkController.Moves.{report, failures_halve, fast_acks_climb}

-- Averages that are whole numbers.
abbrev whole : DoubleOps
whole = record {
  Double = ℕ;
  zero_double = 0;
  from_uint64 = λ n. n;
  throughput = λ sent ack. sent * 1000 / ack;
  ewma = λ sample average. (sample + 4 * average) / 5;
}

abbrev on : Settings
on = record default_settings { enabled = true }

abbrev some_reports : List Call
some_reports = Call.failure ∷ Call.success 1000 (pos 100) ∷ []

abbrev controller : AdaptiveChunkController whole
controller = run whole (new whole on) some_reports

suggestion_bounded_example :
    (controller.settings ≡ normalize_settings on)
    × (0 < 32768)
    × (32768 ≤ controller.current_chunk_size_bytes)
    × (controller.current_chunk_size_bytes ≤ 4194304)
    × (suggested_chunk_size whole controller 0 ≡ controller.current_chunk_size_bytes)
    × (0 < 100 → 0 < suggested_chunk_size whole controller 100)
    × (0 < 100 → suggested_chunk_size whole controller 100 ≤ 100)
    × (suggested_chunk_size whole controller 100 ≤ 4194304)
    × (0 < 100 → 100 < 32768 → suggested_chunk_size whole controller 100 ≡ 100)
suggestion_bounded_example = suggestion_bounded whole on some_reports 100

failures_halve_example :
    (run whole controller (replicate 2 Call.failure)).current_chunk_size_bytes
    ≡ max 32768 (controller.current_chunk_size_bytes / 2 ^ 2)
failures_halve_example = failures_halve whole on some_reports refl 2

fast_acks_climb_example :
    min 4194304 (controller.current_chunk_size_bytes + 2 * kilo_16)
    ≤ (run whole controller
        (map report ((10, pos 5) ∷ (20, pos 700) ∷ []))).current_chunk_size_bytes
fast_acks_climb_example =
    fast_acks_climb whole on some_reports refl ((10, pos 5) ∷ (20, pos 700) ∷ []) (omega arith)
      (omega arith)

-- Two of three fast reports, a slow one and a failure.
runs :
    (run whole (new whole on) (
      Call.failure
      ∷ Call.success 10 (pos 1000)
      ∷ Call.success 10 (pos 1400)
      ∷ Call.success 10 (pos 700)
      ∷ [])).current_chunk_size_bytes
    ≡ 64512
unfolding run step new record_success record_failure times_seven_eighths
runs = refl
