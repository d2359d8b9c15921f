-- ===== src/AdaptiveChunkController/Size.antt =====
-- The bounds of the chunk size, and how it moves
-- (AgentUDTC++_v7.2/AdaptiveChunkController.cpp).
use transfer_udt.Common.{ℕ, ◌≤◌, ◌<◌, ◌≡◌, min, max, List, [], ◌∷◌, arith}
use transfer_udt.Common.Int.{ℤ}
use transfer_udt.AdaptiveChunkController.{
  Settings, DoubleOps, AdaptiveChunkController, clamp, normalize_settings, new,
  suggested_chunk_size, record_success, record_failure,
}

-- A report on the controller: of a sent chunk with its bytes and acknowledgement time, or of a
-- failed one.
pub data Call : Type 0 where
  success : ℕ → ℤ → Call
  failure : Call

module _ (ops : DoubleOps) where
  unfoldable pub step : AdaptiveChunkController ops → Call → AdaptiveChunkController ops
  step c (Call.success sent ack) = record_success ops sent ack c
  step c Call.failure = record_failure ops c

  -- A history, newest report first.
  unfoldable pub run : AdaptiveChunkController ops → List Call → AdaptiveChunkController ops
  run c [] = c
  run c (e ∷ h) = step (run c h) e

clamp_between :
    (value low high : ℕ) → low ≤ high → (low ≤ clamp value low high) × (clamp value low high ≤ high)
clamp_between value low high h = ground arith

clamp_within : (value low high : ℕ) → low ≤ value → value ≤ high → clamp value low high ≡ value
clamp_within value low high p q = ground arith

pub clamp_ordered :
    (value low high : ℕ) → low ≤ high → clamp value low high ≡ max low (min value high)
clamp_ordered value low high p = ground arith

pub normalize-ordered :
    (s : Settings)
    → let n = normalize_settings s in
      (0 < n.min_chunk_size_bytes) × (n.min_chunk_size_bytes ≤ n.max_chunk_size_bytes)
normalize-ordered s = ground arith

pub record IsSized (ops : DoubleOps) (s : Settings) (c : AdaptiveChunkController ops) : Type 0 where
  pub kept : c.settings ≡ s
  pub at_least : s.min_chunk_size_bytes ≤ c.current_chunk_size_bytes
  pub at_most : c.current_chunk_size_bytes ≤ s.max_chunk_size_bytes

module _ (ops : DoubleOps) (s : Settings)
    (ordered : s.min_chunk_size_bytes ≤ s.max_chunk_size_bytes) where
  pub success-IsSized :
      (c : AdaptiveChunkController ops) (sent : ℕ) (ack : ℤ)
      → IsSized ops s c
      → IsSized ops s (record_success ops sent ack c)
  unfolding record_success
  success-IsSized c sent ack h = ground (arith, ordered)

  pub failure-IsSized :
      (c : AdaptiveChunkController ops) → IsSized ops s c → IsSized ops s (record_failure ops c)
  unfolding record_failure
  failure-IsSized c h = ground (arith, ordered)

module _ (ops : DoubleOps) (given : Settings) where
  pub run-IsSized :
      (h : List Call) → IsSized ops (normalize_settings given) (run ops (new ops given) h)
  unfolding run step new
  run-IsSized [] = ground (arith, normalize-ordered given)
  run-IsSized (Call.success sent ack ∷ h) =
      success-IsSized ops (normalize_settings given) (normalize-ordered given).1
        (run ops (new ops given) h) sent ack (run-IsSized h)
  run-IsSized (Call.failure ∷ h) =
      failure-IsSized ops (normalize_settings given) (normalize-ordered given).1
        (run ops (new ops given) h) (run-IsSized h)

  -- After any history of reports on a controller made from any settings, the settings are the
  -- normalized ones, their lower bound is positive, the chunk size lies between the bounds, and so
  -- does the suggestion when nothing is known to remain; the suggestion for a positive rest is
  -- positive, at most that rest and at most the upper bound, and is the rest itself when that is
  -- below the lower bound.
  pub suggestion_bounded :
      (h : List Call) (remaining : ℕ)
      → let c = run ops (new ops given) h in
        let s = normalize_settings given in
        (c.settings ≡ s)
        × (0 < s.min_chunk_size_bytes)
        × (s.min_chunk_size_bytes ≤ c.current_chunk_size_bytes)
        × (c.current_chunk_size_bytes ≤ s.max_chunk_size_bytes)
        × (suggested_chunk_size ops c 0 ≡ c.current_chunk_size_bytes)
        × (0 < remaining → 0 < suggested_chunk_size ops c remaining)
        × (0 < remaining → suggested_chunk_size ops c remaining ≤ remaining)
        × (suggested_chunk_size ops c remaining ≤ s.max_chunk_size_bytes)
        × (0 < remaining
            → remaining < s.min_chunk_size_bytes
            → suggested_chunk_size ops c remaining ≡ remaining)
  unfolding suggested_chunk_size
  suggestion_bounded h remaining =
      let sized = run-IsSized h in
      let (p, o) = normalize-ordered given in ground (arith, sized, p, o)
