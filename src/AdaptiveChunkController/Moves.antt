-- ===== src/AdaptiveChunkController/Moves.antt =====
-- How failures and fast acknowledgements move the chunk size
-- (AgentUDTC++_v7.2/AdaptiveChunkController.cpp).
use native.Mathlib.Nat.{pow-suc, div-div-eq-div-mul}
use transfer_udt.Common.{
  ℕ, zero, suc, ◌+◌, ◌*◌, ◌/◌, ◌%◌, ◌^◌, ◌≤◌, ◌<◌, ◌≡◌, ap, ◌∙◌, min, max, true, List, [], ◌∷◌, map,
  length, replicate, All, arith,
}
use transfer_udt.Common.Int.{ℤ}
use transfer_udt.AdaptiveChunkController.{
  Settings, DoubleOps, AdaptiveChunkController, clamp, normalize_settings, at_least_one, kilo_16,
  new, record_success, record_failure,
}
use transfer_udt.AdaptiveChunkController.Size.{
  Call, step, run, IsSized, run-IsSized, clamp_ordered, success-IsSized, failure-IsSized,
  normalize-ordered,
}

abbrev pub report : ℕ × ℤ → Call
report (sent, ack) = Call.success sent ack

climbed :
    (size low high reach : ℕ)
    → low ≤ size
    → size ≤ high
    → high + high / 8 + kilo_16 < 2 ^ 64
    → min high reach ≤ size
    → min high (reach + kilo_16) ≤ clamp ((size + max kilo_16 (size / 8)) % 2 ^ 64) low high
climbed size low high reach p q fits h = omega (
  arith,
  no_wrap,
  clamp_ordered ((size + max kilo_16 (size / 8)) % 2 ^ 64) low high (omega arith),
)
  where
    no_wrap : (size + max kilo_16 (size / 8)) % 2 ^ 64 ≡ size + max kilo_16 (size / 8)
    no_wrap = omega arith

clamp_halves :
    (size low high whole n : ℕ)
    → low ≤ size
    → size ≤ high
    → size ≡ max low (whole / 2 ^ n)
    → clamp (size / 2) low high ≡ max low (whole / 2 ^ suc n)
clamp_halves size low high whole n p q h = omega (
  arith,
  h,
  ap (λ d. whole / d) (pow-suc 2 n),
  div-div-eq-div-mul whole (2 ^ n) 2,
  clamp_ordered (size / 2) low high (omega arith),
)

module _ (ops : DoubleOps) (s : Settings) (on : s.enabled ≡ true)
    (ordered : s.min_chunk_size_bytes ≤ s.max_chunk_size_bytes) where
  failure_size :
      (c : AdaptiveChunkController ops)
      → IsSized ops s c
      → (record_failure ops c).current_chunk_size_bytes
        ≡ clamp (c.current_chunk_size_bytes / 2) s.min_chunk_size_bytes s.max_chunk_size_bytes
  unfolding record_failure
  failure_size c h = ground (arith, h.kept, on)

  failures-IsSized :
      (c : AdaptiveChunkController ops) (n : ℕ)
      → IsSized ops s c
      → IsSized ops s (run ops c (replicate n Call.failure))
  unfolding run step
  failures-IsSized c zero h = h
  failures-IsSized c (suc n) h =
      failure-IsSized ops s ordered (run ops c (replicate n Call.failure)) (failures-IsSized c n h)

  failures_size :
      (c : AdaptiveChunkController ops) (n : ℕ)
      → IsSized ops s c
      → (run ops c (replicate n Call.failure)).current_chunk_size_bytes
        ≡ max s.min_chunk_size_bytes (c.current_chunk_size_bytes / 2 ^ n)
  unfolding run step
  failures_size c zero h = let l = h.at_least in omega arith
  failures_size c (suc n) h =
      let d = run ops c (replicate n Call.failure) in
      let sized = failures-IsSized c n h in
      failure_size d sized
      ∙ clamp_halves d.current_chunk_size_bytes s.min_chunk_size_bytes s.max_chunk_size_bytes
          c.current_chunk_size_bytes n sized.at_least sized.at_most (failures_size c n h)

  -- What a fast success reports: some bytes, acknowledged within the target.
  abbrev pub IsFast : ℕ × ℤ → Type 0
  IsFast (sent, ack) = (0 < sent) × (at_least_one ack ≤ at_least_one s.target_ack_millis)

  module _ (fits : s.max_chunk_size_bytes + s.max_chunk_size_bytes / 8 + kilo_16 < 2 ^ 64) where
    fast_size :
        (c : AdaptiveChunkController ops) (sent : ℕ) (ack : ℤ)
        → IsSized ops s c
        → IsFast (sent, ack)
        → (record_success ops sent ack c).current_chunk_size_bytes
          ≡ clamp
              ((c.current_chunk_size_bytes + max kilo_16 (c.current_chunk_size_bytes / 8)) % 2 ^ 64)
              s.min_chunk_size_bytes
              s.max_chunk_size_bytes
    unfolding record_success
    fast_size c sent ack h q = ground (arith, h.kept, on)

    fast-IsSized :
        (c : AdaptiveChunkController ops) (acks : List (ℕ × ℤ))
        → IsSized ops s c
        → IsSized ops s (run ops c (map report acks))
    unfolding run step
    fast-IsSized c [] h = h
    fast-IsSized c ((sent, ack) ∷ rest) h =
        success-IsSized ops s ordered (run ops c (map report rest)) sent ack (fast-IsSized c rest h)

    fast_reach :
        (c : AdaptiveChunkController ops) (acks : List (ℕ × ℤ))
        → IsSized ops s c
        → All IsFast acks
        → min s.max_chunk_size_bytes (c.current_chunk_size_bytes + length acks * kilo_16)
          ≤ (run ops c (map report acks)).current_chunk_size_bytes
    unfolding run step
    fast_reach c [] h q = omega arith
    fast_reach c ((sent, ack) ∷ rest) h q =
        let d = run ops c (map report rest) in
        let sized = fast-IsSized c rest h in
        omega (
          arith,
          fast_size d sent ack sized q.0,
          climbed d.current_chunk_size_bytes s.min_chunk_size_bytes s.max_chunk_size_bytes
              (c.current_chunk_size_bytes + length rest * kilo_16) sized.at_least sized.at_most fits
              (fast_reach c rest h q.1),
        )

module _ (ops : DoubleOps) (given : Settings) (h : List Call) (on : given.enabled ≡ true) where
  -- With the controller enabled, `n` failures in a row after any history of reports halve the
  -- chunk size `n` times, down to the lower bound.
  pub failures_halve :
      (n : ℕ)
      → let c = run ops (new ops given) h in
        (run ops c (replicate n Call.failure)).current_chunk_size_bytes
        ≡ max (normalize_settings given).min_chunk_size_bytes (c.current_chunk_size_bytes / 2 ^ n)
  failures_halve n =
      failures_size ops (normalize_settings given) on (normalize-ordered given).1
        (run ops (new ops given) h) n (run-IsSized ops given h)

  -- With the controller enabled and an upper bound whose growth fits in 64 bits, successes in a row
  -- that are acknowledged within the target after any history of reports raise the chunk size by at
  -- least 16 KiB each, up to the upper bound.
  pub fast_acks_climb :
      (acks : List (ℕ × ℤ))
      → let s = normalize_settings given in
        let c = run ops (new ops given) h in
        s.max_chunk_size_bytes + s.max_chunk_size_bytes / 8 + kilo_16 < 2 ^ 64
        → All (λ a. (0 < a.0) × (at_least_one a.1 ≤ at_least_one s.target_ack_millis)) acks
        → min s.max_chunk_size_bytes (c.current_chunk_size_bytes + length acks * kilo_16)
          ≤ (run ops c (map report acks)).current_chunk_size_bytes
  fast_acks_climb acks fits q =
      fast_reach ops (normalize_settings given) on (normalize-ordered given).1 fits
        (run ops (new ops given) h) acks (run-IsSized ops given h) q
