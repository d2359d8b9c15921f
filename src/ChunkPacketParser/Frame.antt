-- ===== src/ChunkPacketParser/Frame.antt =====
-- The length header and the frame of a packet in Parse (TransferCore/ChunkPacketParser.cpp).
use mathlib.Core.Path.{subst}
use transfer_udt.Common.{
  ℕ, ◌+◌, ◌≤◌, ◌≡◌, refl, ◌∙◌, Bool, true, false, not, ltb, ◌==◌, length, arith, All,
}
use transfer_udt.Common.Bytes.{Bytes, IsByte, uint32_bytes, length-uint32_bytes}
use transfer_udt.ChunkMetadata.{ChunkMetadata}
use transfer_udt.Common.Cuts.{Took}
use transfer_udt.ChunkPacketParser.Binds.{bind-ok, bind_inv, reject_pass, reject_inv}
use transfer_udt.ChunkPacketParser.Words.{ok_inj, read_uint32-ok, read_uint32_inv}
use transfer_udt.ChunkPacketParser.Reads.{Field, ParseError, ok, reject_if, read_uint32}
use transfer_udt.ChunkPacketParser.{parse_total_length, max_packet_size_bytes}

pub reject_last :
    (t : Bool) (e : ParseError) {o : ℕ} {c : ChunkMetadata}
    → t ≡ false
    → reject_if t e o c ≡ ok tt o c
reject_last t e h = rw h

pub reject_last_inv :
    (t : Bool) (e : ParseError) {o o' : ℕ} {c c' : ChunkMetadata} {u : Unit {0}}
    → reject_if t e o c ≡ ok u o' c'
    → (t ≡ false) × (o ≡ o') × (c ≡ c')
reject_last_inv true e h = absurd (cc)
reject_last_inv false e h = let (_, p, q) = ok_inj h in (refl, p, q)

module _ (buffer : Bytes) where
  pub total_length-ok :
      {c : ChunkMetadata} {o' : ℕ} (n : ℕ)
      → Took buffer 0 (uint32_bytes n) o'
      → length buffer ≡ o' + n
      → n ≤ max_packet_size_bytes
      → parse_total_length buffer 0 c ≡ ok tt o' c
  unfolding parse_total_length
  total_length-ok {o' = o'} n t sized small =
      reject_pass (ltb (length buffer) 4) ParseError.too_small_for_total_length _
        (ground (arith, t.within, t.ended, length-uint32_bytes n))
      ∙ bind-ok (read_uint32 buffer Field.total_length) _
          (read_uint32-ok buffer Field.total_length n (omega (arith, small)) t)
      ∙ reject_pass (ltb max_packet_size_bytes n) ParseError.total_length_exceeds_maximum _
          (ground arith)
      ∙ reject_last (not (length buffer == o' + n)) ParseError.size_mismatch (ground arith)

  pub total_length_inv :
      {c c' : ChunkMetadata} {u : Unit {0}} {o' : ℕ}
      → All IsByte buffer
      → parse_total_length buffer 0 c ≡ ok u o' c'
      → (n : ℕ) × Took buffer 0 (uint32_bytes n) o' × (length buffer ≡ o' + n) × (c ≡ c')
  unfolding parse_total_length
  total_length_inv b h =
      let (_, h1) = reject_inv (ltb (length buffer) 4) ParseError.too_small_for_total_length _ h in
      let (n, o1, c1, e1, h2) = bind_inv (read_uint32 buffer Field.total_length) _ h1 in
      let (t, _, same) = read_uint32_inv buffer Field.total_length b e1 in
      let (_, h3) =
        reject_inv (ltb max_packet_size_bytes n) ParseError.total_length_exceeds_maximum _ h2 in
      let (sized, e, e') =
        reject_last_inv (not (length buffer == o1 + n)) ParseError.size_mismatch h3 in
      (
        n,
        subst (λ x. Took buffer 0 (uint32_bytes n) x) e t,
        subst (λ x. length buffer ≡ x + n) e (ground (arith, sized)),
        same ∙ e',
      )
