-- ===== src/FileStabilityChecker/Tests.antt =====
-- The theorems on the stability wait (AgentUDTC++_v7.2/FileStabilityChecker.cpp), at a file that
-- grows once.
use transfer_udt.Common.{
  ℕ, ◌+◌, ◌-◌, ◌≤◌, ◌<◌, ◌≡◌, refl, Option, none, some, ltb, if◌then◌else◌, arith,
}
use transfer_udt.Common.Int.{pos}
use transfer_udt.FileStabilityChecker.{stable, failed, wait_loop, wait_for_file_stability}
use transfer_udt.FileStabilityChecker.Stable.{checker, returns_stable, stable_returns}

-- 5 bytes at the first two readings, 7 from then on.
abbrev grows_once : ℕ → Option ℕ
grows_once i = if ltb i 2 then some 5 else some 7

abbrev always_readable : (i : ℕ) → (size : ℕ) × (grows_once i ≡ some size)
always_readable i = (if ltb i 2 then 5 else 7, ground arith)

grown : wait_for_file_stability grows_once 4 (checker (pos 1) 2) ≡ stable 5
unfolding wait_for_file_stability wait_loop
grown = refl

unreadable : wait_for_file_stability (λ i. none) 4 (checker (pos 1) 2) ≡ failed 0
unfolding wait_for_file_stability wait_loop
unreadable = refl

returns_stable_example :
    (size : ℕ) × (2 < 5) × ((i : ℕ) → 5 - 1 - 2 ≤ i → i < 5 → grows_once i ≡ some size)
returns_stable_example = returns_stable grows_once 4 2 5 (pos 1) grown

stable_returns_example :
    (n : ℕ) × (wait_for_file_stability grows_once (2 + 2) (checker (pos 1) 2) ≡ stable n)
stable_returns_example =
    stable_returns grows_once 2 7 2 (pos 1) always_readable (λ i h. ground arith)
