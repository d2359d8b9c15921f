-- ===== src/SecurePacket/Reading.antt =====
-- The reads of TransferCore/SecurePacket.cpp succeed where their bytes stand, and the checks of a
-- packet's length and magic pass on a well-formed packet.
use transfer_udt.Common.{
  ℕ, ◌+◌, ◌-◌, ◌/◌, ◌%◌, ◌^◌, ◌<◌, ◌≡◌, refl, ap, ◌∙◌, Bool, true, false, not, ◌||◌, length, ltb,
  ◌==◌, arith,
}
use transfer_udt.Common.Bytes.{
  Bytes, slice, uint32_of, uint32_bytes, uint64_bytes, length-uint32_bytes, uint32_of-uint32_bytes,
  bytes_eq_iff, uint64_bytes_value,
}
use transfer_udt.Common.Cuts.{Took, Took-split, slice_of_Took-length}
use transfer_udt.SecurePacket.Crypto.{Result, ok, err, SecureError, ◌>>=◌, ◌>>◌, throw_if}
use transfer_udt.SecurePacket.Envelope.{
  read_uint32, read_uint64, validate_packet_length, is_encrypted_packet, magic,
}

pub bind-ok : {A B : Type 0} {m : Result A} (f : A → Result B) {a : A} → m ≡ ok a → (m >>= f) ≡ f a
bind-ok f e = rw e

pub pass :
    {B : Type 0} (t : Bool) (e : SecureError) (k : Result B) → t ≡ false → (throw_if t e >> k) ≡ k
pass t e k h = rw h

pub thrown :
    {B : Type 0} (t : Bool) (e : SecureError) (k : Result B)
    → t ≡ true
    → (throw_if t e >> k) ≡ err e
thrown t e k h = rw h

pub pass_last : (t : Bool) (e : SecureError) → t ≡ false → throw_if t e ≡ ok tt
pass_last t e h = rw h

module _ (buffer : Bytes) where
  pub read_uint32-ok :
      {o o' : ℕ} (v : ℕ)
      → v < 2 ^ 32
      → Took buffer o (uint32_bytes v) o'
      → read_uint32 buffer o ≡ ok (v, o')
  unfolding read_uint32
  read_uint32-ok {o} {o'} v h t = rw inside (λ i. ok (word i, ended i))
    where
      inside : (ltb (length buffer) o || ltb (length buffer - o) 4) ≡ false
      inside = ground (arith, t.ended, t.within, length-uint32_bytes v)

      word : uint32_of (slice o 4 buffer) ≡ v
      word =
          ap uint32_of (slice_of_Took-length (uint32_bytes v) 4 (length-uint32_bytes v) t)
          ∙ uint32_of-uint32_bytes v h

      ended : o + 4 ≡ o'
      ended = omega (arith, t.ended, length-uint32_bytes v)

  pub read_uint64-ok :
      {o o' : ℕ} (v : ℕ)
      → v < 2 ^ 64
      → Took buffer o (uint64_bytes v) o'
      → read_uint64 buffer o ≡ ok (v, o')
  unfolding read_uint64 uint64_bytes
  read_uint64-ok {o} {o'} v h t =
      let (high, low) =
        Took-split (uint32_bytes (v / 2 ^ 32 % 2 ^ 32)) (uint32_bytes (v % 2 ^ 32)) t in
      bind-ok _ (read_uint32-ok (v / 2 ^ 32 % 2 ^ 32) (omega arith) high)
      ∙ bind-ok _ (read_uint32-ok (v % 2 ^ 32) (omega arith) low)
      ∙ (λ i. ok (uint64_bytes_value v h i, o'))

  -- The outer length counts the rest.
  pub validate-ok :
      (n : ℕ) {o' : ℕ}
      → n < 2 ^ 32
      → Took buffer 0 (uint32_bytes n) o'
      → length buffer ≡ 4 + n
      → validate_packet_length buffer ≡ ok tt
  unfolding validate_packet_length
  validate-ok n h t e =
      pass (ltb (length buffer) 4) SecureError.too_small _ (ground (arith, e))
      ∙ bind-ok _ (read_uint32-ok n h t)
      ∙ pass_last (not (length buffer == 4 + n)) SecureError.length_mismatch (ground (arith, e))

  pub is_encrypted-ok : {o' : ℕ} → Took buffer 4 magic o' → is_encrypted_packet buffer ≡ true
  unfolding is_encrypted_packet
  is_encrypted-ok t =
      rw (inside, slice_of_Took-length magic 8 refl t) ((bytes_eq_iff magic magic).1 refl)
    where
      inside : ltb (length buffer) 12 ≡ false
      inside = ground (arith, t.ended, t.within)
