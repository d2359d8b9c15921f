-- ===== src/ChunkPacketParser/Words.antt =====
-- The reads of TransferCore/ChunkPacketParser.cpp: each succeeds exactly where its bytes stand.
use transfer_udt.Common.{
  ℕ, ◌+◌, ◌-◌, ◌*◌, ◌/◌, ◌%◌, ◌^◌, ◌≤◌, ◌<◌, ◌≡◌, sym, ap, ◌∙◌, ◌||◌, ltb, length, arith, drop, All,
  length-drop, length-take, All-take, All-drop,
}
use mathlib.Core.Path.{subst, subst₂}
use transfer_udt.Common.Bytes.{
  length-uint64_bytes, Bytes, IsByte, slice, uint32_of, uint32_bytes, uint64_bytes,
  length-uint32_bytes, uint32_of-uint32_bytes, uint32_of-lt, uint32_bytes-uint32_of,
}
use transfer_udt.ChunkMetadata.{ChunkMetadata}
use transfer_udt.Common.Cuts.{Took, Took-slice, slice_of_Took, Took-append, Took-split}
use transfer_udt.ChunkPacketParser.Binds.{reject_pass, reject_inv}
use transfer_udt.ChunkPacketParser.Reads.{
  Field, Outcome, ok, M, ◌>>◌, ensure_available, read_uint32, read_uint64, read_string,
}

module _ {A : Type 0} where
  ok_path : {a b : A} {o o' : ℕ} {c : ChunkMetadata} → a ≡ b → o ≡ o' → Outcome.ok a o c ≡ ok b o' c
  ok_path {c = c} p q = λ i. ok (p i) (q i) c

  pub ok_inj :
      {a b : A} {o o' : ℕ} {c c' : ChunkMetadata}
      → Outcome.ok a o c ≡ ok b o' c'
      → (a ≡ b) × (o ≡ o') × (c ≡ c')
  ok_inj h = (cc, cc, cc)

module _ (buffer : Bytes) where
  word_IsByte : (o n : ℕ) → All IsByte buffer → All IsByte (slice o n buffer)
  word_IsByte o n b = All-take IsByte n (drop o buffer) (All-drop IsByte o buffer b)

  Took-word :
      (o : ℕ)
      → All IsByte buffer
      → o + 4 ≤ length buffer
      → Took buffer o (uint32_bytes (uint32_of (slice o 4 buffer))) (o + 4)
  Took-word o b h =
      rw
        (uint32_bytes-uint32_of (slice o 4 buffer) (word_IsByte o 4 b)
          (omega (arith, length-take 4 (drop o buffer), length-drop o buffer)))
        (Took-slice o 4 h)

  Took-two_words :
      (o : ℕ)
      → All IsByte buffer
      → o + 8 ≤ length buffer
      → Took buffer o
          (uint64_bytes
            (uint32_of (slice o 4 buffer) * 2 ^ 32 + uint32_of (slice (o + 4) 4 buffer)))
          (o + 8)
  unfolding uint64_bytes
  Took-two_words o b h =
      rw (high_part, low_part, two_steps)
        (Took-append _ _ (Took-word o b (omega arith)) (Took-word (o + 4) b (omega arith)))
    where
      high : ℕ
      high = uint32_of (slice o 4 buffer)

      low : ℕ
      low = uint32_of (slice (o + 4) 4 buffer)

      high_lt : high < 2 ^ 32
      high_lt = uint32_of-lt (slice o 4 buffer) (word_IsByte o 4 b)

      low_lt : low < 2 ^ 32
      low_lt = uint32_of-lt (slice (o + 4) 4 buffer) (word_IsByte (o + 4) 4 b)

      high_part : (high * 2 ^ 32 + low) / 2 ^ 32 % 2 ^ 32 ≡ high
      high_part = omega (arith, high_lt, low_lt)

      low_part : (high * 2 ^ 32 + low) % 2 ^ 32 ≡ low
      low_part = omega (arith, low_lt)

      two_steps : o + 8 ≡ o + 4 + 4
      two_steps = omega arith

  two_words_lt :
      (o : ℕ)
      → All IsByte buffer
      → uint32_of (slice o 4 buffer) * 2 ^ 32 + uint32_of (slice (o + 4) 4 buffer) < 2 ^ 64
  two_words_lt o b = omega (
    arith,
    uint32_of-lt (slice o 4 buffer) (word_IsByte o 4 b),
    uint32_of-lt (slice (o + 4) 4 buffer) (word_IsByte (o + 4) 4 b),
  )

module _ (buffer : Bytes) (field : Field) where
  available_ok :
      {A : Type 0} (n : ℕ) (k : M A) {c : ChunkMetadata} {o : ℕ}
      → o + n ≤ length buffer
      → (ensure_available buffer field n >> k) o c ≡ k o c
  unfolding ensure_available
  available_ok n k {o} h =
      reject_pass (ltb (length buffer) o || ltb (length buffer - o) n) _ k (ground arith)

  available_inv :
      {A : Type 0} (n : ℕ) (k : M A) {c : ChunkMetadata} {o o' : ℕ} {c' : ChunkMetadata} {b : A}
      → (ensure_available buffer field n >> k) o c ≡ ok b o' c'
      → (o + n ≤ length buffer) × (k o c ≡ ok b o' c')
  unfolding ensure_available
  available_inv n k {o} h =
      let (test, rest) = reject_inv (ltb (length buffer) o || ltb (length buffer - o) n) _ k h in
      (ground (arith, test), rest)

  -- A read of bytes succeeds where they stand,
  pub read_string-ok :
      {c : ChunkMetadata} {o o' : ℕ} (s : Bytes)
      → Took buffer o s o'
      → read_string buffer field (length s) o c ≡ ok s o' c
  unfolding read_string
  read_string-ok {o} s t =
      available_ok (length s) _ (omega (arith, t.ended, t.within))
      ∙ ok_path (slice_of_Took s t) (sym t.ended)

  -- and takes what it returns.
  pub read_string_inv :
      {c : ChunkMetadata} {o o' : ℕ} {c' : ChunkMetadata} {s : Bytes} (n : ℕ)
      → read_string buffer field n o c ≡ ok s o' c'
      → Took buffer o s o' × (length s ≡ n) × (c ≡ c')
  unfolding read_string
  read_string_inv {o} n h =
      let (fits, rest) = available_inv n _ h in
      let (e, e', e'') = ok_inj rest in
      (
        subst₂ (λ x y. Took buffer o x y) e e' (Took-slice o n fits),
        ap length (sym e) ∙ omega (arith, length-take n (drop o buffer), length-drop o buffer),
        e'',
      )

  pub read_uint32-ok :
      {c : ChunkMetadata} {o o' : ℕ} (v : ℕ)
      → v < 2 ^ 32
      → Took buffer o (uint32_bytes v) o'
      → read_uint32 buffer field o c ≡ ok v o' c
  unfolding read_uint32
  read_uint32-ok {o} v h t =
      available_ok 4 _ (omega (arith, t.ended, t.within, length-uint32_bytes v))
      ∙ ok_path (ap uint32_of word ∙ uint32_of-uint32_bytes v h)
          (omega (arith, t.ended, length-uint32_bytes v))
    where
      word : slice o 4 buffer ≡ uint32_bytes v
      word = rw (length-uint32_bytes v) at (slice_of_Took (uint32_bytes v) t)

  pub read_uint32_inv :
      {c : ChunkMetadata} {o o' : ℕ} {c' : ChunkMetadata} {v : ℕ}
      → All IsByte buffer
      → read_uint32 buffer field o c ≡ ok v o' c'
      → Took buffer o (uint32_bytes v) o' × (v < 2 ^ 32) × (c ≡ c')
  unfolding read_uint32
  read_uint32_inv {o} b h =
      let (fits, rest) = available_inv 4 _ h in
      let (e, e', e'') = ok_inj rest in
      (
        subst₂ (λ x y. Took buffer o (uint32_bytes x) y) e e' (Took-word buffer o b fits),
        subst (λ x. x < 2 ^ 32) e (uint32_of-lt (slice o 4 buffer) (word_IsByte buffer o 4 b)),
        e'',
      )

  pub read_uint64-ok :
      {c : ChunkMetadata} {o o' : ℕ} (v : ℕ)
      → v < 2 ^ 64
      → Took buffer o (uint64_bytes v) o'
      → read_uint64 buffer field o c ≡ ok v o' c
  unfolding read_uint64 uint64_bytes
  read_uint64-ok {o} {o'} v h t =
      available_ok 8 _ (omega (arith, t.ended, t.within, length-uint64_bytes v))
      ∙ ok_path
          (omega (
            arith,
            ap uint32_of high_word,
            ap uint32_of low_word,
            uint32_of-uint32_bytes high,
            uint32_of-uint32_bytes low,
          ))
          (omega (arith, t.ended, length-uint64_bytes v))
    where
      high : ℕ
      high = v / 2 ^ 32 % 2 ^ 32

      low : ℕ
      low = v % 2 ^ 32

      parts :
          Took buffer o (uint32_bytes high) (o + length (uint32_bytes high))
          × Took buffer (o + length (uint32_bytes high)) (uint32_bytes low) o'
      parts = Took-split (uint32_bytes high) (uint32_bytes low) t

      high_word : slice o 4 buffer ≡ uint32_bytes high
      high_word = rw (length-uint32_bytes high) at (slice_of_Took (uint32_bytes high) parts.0)

      low_word : slice (o + 4) 4 buffer ≡ uint32_bytes low
      low_word =
          rw (length-uint32_bytes high, length-uint32_bytes low) at
            (slice_of_Took (uint32_bytes low) parts.1)

  pub read_uint64_inv :
      {c : ChunkMetadata} {o o' : ℕ} {c' : ChunkMetadata} {v : ℕ}
      → All IsByte buffer
      → read_uint64 buffer field o c ≡ ok v o' c'
      → Took buffer o (uint64_bytes v) o' × (v < 2 ^ 64) × (c ≡ c')
  unfolding read_uint64
  read_uint64_inv {o} b h =
      let (fits, rest) = available_inv 8 _ h in
      let (e, e', e'') = ok_inj rest in
      (
        subst₂ (λ x y. Took buffer o (uint64_bytes x) y) e e' (Took-two_words buffer o b fits),
        subst (λ x. x < 2 ^ 64) e (two_words_lt buffer o b),
        e'',
      )
