-- ===== src/FileStabilityChecker.antt =====
-- The wait for a file that no longer grows (AgentUDTC++_v7.2/FileStabilityChecker.cpp). The file
-- system is a parameter: the size that each reading finds, or `none` where it fails. The sleep
-- between two readings is left out.
use transfer_udt.Common.{
  ℕ, zero, suc, ◌+◌, ◌≤◌, ◌<◌, ◌≡◌, refl, sym, ap, ◌∙◌, Bool, true, false, ltb, ◌==◌, if◌then◌else◌,
  Option, none, some, arith,
}
use transfer_udt.Common.Int.{ℤ, pos, negsuc}
mod Stable
mod Tests

pub record FileStabilityChecker : Type 0 where
  pub check_interval_seconds : ℤ
  pub required_consecutive_checks : ℤ

-- How a call ends: with the readings it took, with an exception at a reading, or not within the fuel.
pub data Ended : Type 0 where
  stable : ℕ → Ended
  failed : ℕ → Ended
  out_of_fuel : Ended

-- count < required, for an int
abbrev pub below : ℕ → ℤ → Bool
below n (pos m) = ltb n m
below n (negsuc m) = false

module _ (file_size : ℕ → Option ℕ) where
  -- The loop: `at` readings are taken, the last found `last_size`, for the `count`-th time in a row.
  unfoldable pub wait_loop : ℕ → ℤ → ℕ → ℕ → ℕ → Ended
  wait_loop zero required at last_size count =
      if below count required then out_of_fuel else stable at
  wait_loop (suc fuel) required at last_size count = elim (below count required) [
    | false ↦ stable at
    | true ↦ elim (file_size at) [
      | none ↦ failed at
      | some current ↦ elim (current == last_size) [
        | true ↦ wait_loop fuel required (suc at) last_size (suc count)
        | false ↦ wait_loop fuel required (suc at) current 0
      ]
    ]
  ]

  abbrev from_first : ℕ → FileStabilityChecker → Option ℕ → Ended
  from_first fuel c none = failed 0
  from_first fuel c (some size) = wait_loop fuel c.required_consecutive_checks 1 size 0

  unfoldable pub wait_for_file_stability : ℕ → FileStabilityChecker → Ended
  wait_for_file_stability fuel c = from_first fuel c (file_size 0)
