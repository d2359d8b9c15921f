-- ===== src/FileStabilityChecker/Stable.antt =====
-- What a returned wait has seen, and when the wait returns
-- (AgentUDTC++_v7.2/FileStabilityChecker.cpp).
use transfer_udt.Common.{
  ℕ, zero, suc, ◌+◌, ◌-◌, ◌≤◌, ◌<◌, ◌≡◌, sym, ap, ◌∙◌, true, false, ◌==◌, Option, none, some, arith,
  Option-cases, Bool-cases, inl, inr, ◌⊎◌,
}
use transfer_udt.Common.Int.{ℤ, pos}
use transfer_udt.FileStabilityChecker.{
  FileStabilityChecker, stable, failed, below, wait_loop, from_first, wait_for_file_stability,
}

module _ (file_size : ℕ → Option ℕ) (required : ℕ) where
  -- The last `count + 1` of `at` readings found `size`.
  abbrev Seen : ℕ → ℕ → ℕ → Type 0
  Seen at size count =
      (count < at) × ((i : ℕ) → at - 1 - count ≤ i → i < at → file_size i ≡ some size)

  Seen-again :
      (at size count : ℕ)
      → Seen at size count
      → file_size at ≡ some size
      → Seen (suc at) size (suc count)
  Seen-again at size count h e = (
    omega (arith, h.0),
    λ i p q. elim (lt_or_eq i at q) [
      | inl less ↦ h.1 i (omega (arith, h.0, p)) less
      | inr same ↦ ap file_size same ∙ e
    ],
  )
    where
      lt_or_eq : (i at : ℕ) → i < suc at → (i < at) ⊎ (i ≡ at)
      lt_or_eq i at q = ground arith

  Seen-new : (at size : ℕ) → file_size at ≡ some size → Seen (suc at) size 0
  Seen-new at size e = (omega arith, λ i p q. ap file_size (omega (arith, p, q)) ∙ e)

  enough :
      (at size count n : ℕ)
      → Seen at size count
      → below count (pos required) ≡ false
      → stable at ≡ stable n
      → (s : ℕ) × Seen n s required
  enough at size count n seen b e = (
    size,
    (
      omega (arith, seen.0, long, same),
      λ i p q. seen.1 i (omega (arith, p, long, same)) (omega (arith, q, same)),
    ),
  )
    where
      same : at ≡ n
      same = ground (arith, e)

      long : required ≤ count
      long = ground (arith, b)

  -- The three ways on from a reading.
  loop_next :
      (fuel at size count : ℕ)
      → below count (pos required) ≡ true
      → let now = wait_loop file_size (suc fuel) (pos required) at size count in
        ((file_size at ≡ none) × (now ≡ failed at))
        ⊎ ((file_size at ≡ some size)
            × (now ≡ wait_loop file_size fuel (pos required) (suc at) size (suc count)))
        ⊎ ((current : ℕ) × (file_size at ≡ some current)
            × (current ≡ size → ⊥)
            × (now ≡ wait_loop file_size fuel (pos required) (suc at) current 0))
  unfolding wait_loop
  loop_next fuel at size count b = elim (Option-cases (file_size at)) [
    | inl e ↦ inl (e, ground (arith, b, e))
    | inr (current, e) ↦ elim (Bool-cases (current == size)) [
      | inl same ↦ inr (inl (ground (arith, b, e, same), ground (arith, b, e, same)))
      | inr other ↦
          inr (inr (current, e, (λ q. ground (arith, other, q)), ground (arith, b, e, other)))
    ]
  ]

  wait_loop-stable :
      (fuel at size count n : ℕ)
      → Seen at size count
      → wait_loop file_size fuel (pos required) at size count ≡ stable n
      → (s : ℕ) × Seen n s required
  unfolding wait_loop
  wait_loop-stable zero at size count n seen h = elim (Bool-cases (below count (pos required))) [
    | inl b ↦ absurd (ground (arith, b, h))
    | inr b ↦ enough at size count n seen b (ground (arith, b, h))
  ]
  wait_loop-stable (suc fuel) at size count n seen h =
      elim (Bool-cases (below count (pos required))) [
        | inr b ↦ enough at size count n seen b (ground (arith, b, h))
        | inl b ↦ elim (loop_next fuel at size count b) [
          | inl (e, eq) ↦ absurd (ground (arith, sym eq ∙ h))
          | inr (inl (e, eq)) ↦
              wait_loop-stable fuel (suc at) size (suc count) n (Seen-again at size count seen e)
                (sym eq ∙ h)
          | inr (inr (current, e, _, eq)) ↦
              wait_loop-stable fuel (suc at) current 0 n (Seen-new at current e) (sym eq ∙ h)
        ]
      ]

  module _ (final settled : ℕ) (readable : (i : ℕ) → (s : ℕ) × (file_size i ≡ some s))
      (settles : (i : ℕ) → settled ≤ i → file_size i ≡ some final) where
    -- Past the settling, the last size is the final one and has been counted since.
    abbrev Settling : ℕ → ℕ → ℕ → Type 0
    Settling at size count = settled < at → (size ≡ final) × (at ≤ settled + 1 + count)

    abbrev Returns : ℕ → ℕ → ℕ → ℕ → Type 0
    Returns fuel at size count =
        (n : ℕ) × (wait_loop file_size fuel (pos required) at size count ≡ stable n)

    returned :
        (fuel at size count : ℕ) → below count (pos required) ≡ false → Returns fuel at size count
    unfolding wait_loop
    returned zero at size count b = (at, ground (arith, b))
    returned (suc fuel) at size count b = (at, ground (arith, b))

    same_size :
        (at size current count : ℕ)
        → Settling at size count
        → file_size at ≡ some current
        → settled < suc at
        → current ≡ final
    same_size at size current count h e p = ground (arith, sym e ∙ settles at (omega (arith, p)))

    still-Settling :
        (at size count : ℕ)
        → Settling at size count
        → file_size at ≡ some size
        → Settling (suc at) size (suc count)
    still-Settling at size count h e p = (same_size at size size count h e p, ground arith)

    new-Settling :
        (at size current count : ℕ)
        → Settling at size count
        → file_size at ≡ some current
        → (current ≡ size → ⊥)
        → Settling (suc at) current 0
    new-Settling at size current count h e ne p =
        let now = same_size at size current count h e p in (now, ground (arith, now))

    loop-Returns :
        (fuel at size count : ℕ)
        → Settling at size count
        → settled + 1 + required ≤ fuel + at
        → Returns fuel at size count
    loop-Returns zero at size count h f =
        returned zero at size count (ground (arith, h (omega (arith, f))))
    loop-Returns (suc fuel) at size count h f = elim (Bool-cases (below count (pos required))) [
      | inr b ↦ returned (suc fuel) at size count b
      | inl b ↦ elim (loop_next fuel at size count b) [
        | inl (e, eq) ↦ absurd (ground (arith, sym e ∙ (readable at).1))
        | inr (inl (e, eq)) ↦
            let (n, r) =
              loop-Returns fuel (suc at) size (suc count) (still-Settling at size count h e)
                (omega (arith, f)) in
            (n, eq ∙ r)
        | inr (inr (current, e, ne, eq)) ↦
            let (n, r) =
              loop-Returns fuel (suc at) current 0 (new-Settling at size current count h e ne)
                (omega (arith, f)) in
            (n, eq ∙ r)
      ]
    ]

abbrev pub checker : ℤ → ℕ → FileStabilityChecker
checker interval required = record {
  check_interval_seconds = interval;
  required_consecutive_checks = pos required;
}

-- When the wait returns after `n` readings, with a required number of checks that is not negative,
-- all of the last `required + 1` of them found one size, whatever the file did before.
pub returns_stable :
    (file_size : ℕ → Option ℕ) (fuel required n : ℕ) (interval : ℤ)
    → wait_for_file_stability file_size fuel (checker interval required) ≡ stable n
    → (size : ℕ) × (required < n)
      × ((i : ℕ) → n - 1 - required ≤ i → i < n → file_size i ≡ some size)
unfolding wait_for_file_stability
returns_stable file_size fuel required n interval h = elim (Option-cases (file_size 0)) [
  | inl e ↦ absurd (ground (arith, e, h))
  | inr (size, e) ↦
      let (s, (long, all)) =
        wait_loop-stable file_size required fuel 1 size 0 n (Seen-new file_size required 0 size e)
          (ap (from_first file_size fuel (checker interval required)) (sym e) ∙ h) in
      (s, long, all)
]

-- When every reading succeeds and the size no longer changes from the reading numbered `settled`
-- on, the wait returns, within `settled + required` more readings after the first.
pub stable_returns :
    (file_size : ℕ → Option ℕ) (required final settled : ℕ) (interval : ℤ)
    → ((i : ℕ) → (size : ℕ) × (file_size i ≡ some size))
    → ((i : ℕ) → settled ≤ i → file_size i ≡ some final)
    → (n : ℕ) × (wait_for_file_stability file_size (settled + required) (checker interval required)
        ≡ stable n)
unfolding wait_for_file_stability
stable_returns file_size required final settled interval readable settles =
    let (size, e) = readable 0 in
    let (n, r) =
      loop-Returns file_size required final settled readable settles (settled + required) 1 size 0
        (λ p. (only_size size e p, omega (arith, p))) (omega arith) in
    (n, ap (from_first file_size (settled + required) (checker interval required)) e ∙ r)
  where
    only_size : (size : ℕ) → file_size 0 ≡ some size → settled < 1 → size ≡ final
    only_size size e p = ground (arith, sym e ∙ settles 0 (omega (arith, p)))
