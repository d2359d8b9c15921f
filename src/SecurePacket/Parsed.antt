-- ===== src/SecurePacket/Parsed.antt =====
-- ParseEnvelope of TransferCore/SecurePacket.cpp reads a session envelope back.
use mathlib.Core.Path.{subst}
use transfer_udt.Common.{
  ℕ, ◌+◌, ◌-◌, ◌^◌, ◌<◌, ◌≡◌, refl, ap, ◌∙◌, not, ◌||◌, ◌++◌, length, ltb, ◌==◌, arith,
  length-append,
}
use transfer_udt.Common.Bytes.{Bytes, slice, uint32_bytes, uint64_bytes}
use transfer_udt.Common.Cuts.{Took, Took-split_at, Took-whole, slice_of_Took-length}
use transfer_udt.SecurePacket.Crypto.{ok, SecureError}
use transfer_udt.SecurePacket.Hex.{to_hex}
use transfer_udt.SecurePacket.Envelope.{
  ParsedEnvelope, is_encrypted_packet, magic, parse_envelope, parse_header, parse_session_header,
  parse_payload,
}
use transfer_udt.SecurePacket.Reading.{
  bind-ok, pass, read_uint32-ok, read_uint64-ok, validate-ok, is_encrypted-ok,
}

-- A session envelope, field by field.
abbrev pub session_tail : Bytes → ℕ → ℕ → Bytes → Bytes
session_tail raw_id sequence n rest =
    magic
    ++ (uint32_bytes 2
        ++ (uint32_bytes 16
            ++ (uint64_bytes sequence
                ++ (uint32_bytes 12 ++ (uint32_bytes 16 ++ (uint32_bytes n ++ (raw_id ++ rest)))))))

abbrev pub session_envelope : Bytes → ℕ → Bytes → Bytes → Bytes → Bytes
session_envelope raw_id sequence nonce tag cipher =
    uint32_bytes (80 + length cipher)
    ++ session_tail raw_id sequence (length cipher) (nonce ++ (tag ++ cipher))

module _ (raw_id : Bytes) (sequence : ℕ) (nonce tag cipher : Bytes) (id_16 : length raw_id ≡ 16)
    (nonce_12 : length nonce ≡ 12) (tag_16 : length tag ≡ 16) (fits : 80 + length cipher < 2 ^ 32)
    (positive : 0 < sequence) (sequence_fits : sequence < 2 ^ 64) where
  abbrev pub packet : Bytes
  packet = session_envelope raw_id sequence nonce tag cipher

  abbrev pub parsed : ParsedEnvelope
  parsed = record {
    version = 2;
    session_id = to_hex raw_id;
    sequence_number = sequence;
    nonce = nonce;
    tag = tag;
    cipher_offset = 84;
    cipher_size = length cipher;
    authenticated_header_size = 56;
  }

  pub length-packet : length packet ≡ 84 + length cipher
  unfolding uint32_bytes uint64_bytes
  length-packet = omega (
    arith,
    length-append raw_id (nonce ++ (tag ++ cipher)),
    length-append nonce (tag ++ cipher),
    length-append tag cipher,
  )

  pub record Cuts : Type 0 where
    pub outer : Took packet 0 (uint32_bytes (80 + length cipher)) 4
    pub marked : Took packet 4 magic 12
    pub kind : Took packet 12 (uint32_bytes 2) 16
    pub id_length : Took packet 16 (uint32_bytes 16) 20
    pub number : Took packet 20 (uint64_bytes sequence) 28
    pub nonce_length : Took packet 28 (uint32_bytes 12) 32
    pub tag_length : Took packet 32 (uint32_bytes 16) 36
    pub cipher_length : Took packet 36 (uint32_bytes (length cipher)) 40
    pub id : Took packet 40 raw_id 56
    pub the_nonce : Took packet 56 nonce 68
    pub the_tag : Took packet 68 tag 84
    pub the_cipher : Took packet 84 cipher (84 + length cipher)

  pub cuts : Cuts
  unfolding uint32_bytes uint64_bytes
  cuts =
      let whole = Took-whole packet packet refl in
      let (c0, r0) = Took-split_at 4 (uint32_bytes (80 + length cipher)) _ refl whole in
      let (c1, r1) = Took-split_at 12 magic _ refl r0 in
      let (c2, r2) = Took-split_at 16 (uint32_bytes 2) _ refl r1 in
      let (c3, r3) = Took-split_at 20 (uint32_bytes 16) _ refl r2 in
      let (c4, r4) = Took-split_at 28 (uint64_bytes sequence) _ refl r3 in
      let (c5, r5) = Took-split_at 32 (uint32_bytes 12) _ refl r4 in
      let (c6, r6) = Took-split_at 36 (uint32_bytes 16) _ refl r5 in
      let (c7, r7) = Took-split_at 40 (uint32_bytes (length cipher)) _ refl r6 in
      let (c8, r8) = Took-split_at 56 raw_id _ (omega (arith, id_16)) r7 in
      let (c9, r9) = Took-split_at 68 nonce _ (omega (arith, nonce_12)) r8 in
      let (c10, c11) = Took-split_at 84 tag cipher (omega (arith, tag_16)) r9 in
      record {
        outer = c0;
        marked = c1;
        kind = c2;
        id_length = c3;
        number = c4;
        nonce_length = c5;
        tag_length = c6;
        cipher_length = c7;
        id = c8;
        the_nonce = c9;
        the_tag = c10;
        the_cipher = subst (λ x. Took packet 84 cipher x) length-packet c11;
      }

  payload-ok :
      parse_payload packet 2 (to_hex raw_id) sequence 56 12 16 (length cipher) 56 ≡ ok parsed
  unfolding parse_payload
  payload-ok =
      pass (not (12 == 12) || not (16 == 16)) SecureError.invalid_nonce_or_tag_length _ refl
      ∙ pass (not (length packet - 56 == 12 + 16 + length cipher))
          SecureError.payload_length_mismatch _ (ground (arith, length-packet))
      ∙ (λ i. ok (record parsed { nonce = the_nonce i; tag = the_tag i }))
    where
      the_nonce : slice 56 12 packet ≡ nonce
      the_nonce = slice_of_Took-length nonce 12 nonce_12 cuts.the_nonce

      the_tag : slice 68 16 packet ≡ tag
      the_tag = slice_of_Took-length tag 16 tag_16 cuts.the_tag

  session_header-ok : parse_session_header packet 16 ≡ ok parsed
  unfolding parse_session_header
  session_header-ok =
      bind-ok _ (read_uint32-ok packet 16 (omega arith) cuts.id_length)
      ∙ bind-ok _ (read_uint64-ok packet sequence sequence_fits cuts.number)
      ∙ bind-ok _ (read_uint32-ok packet 12 (omega arith) cuts.nonce_length)
      ∙ bind-ok _ (read_uint32-ok packet 16 (omega arith) cuts.tag_length)
      ∙ bind-ok _ (read_uint32-ok packet (length cipher) (omega (arith, fits)) cuts.cipher_length)
      ∙ pass (not (16 == 16) || sequence == 0) SecureError.invalid_session_metadata _
          (ground (arith, positive))
      ∙ pass (ltb (length packet - 40) 16) SecureError.session_id_truncated _
          (ground (arith, length-packet))
      ∙ ap (λ id. parse_payload packet 2 (to_hex id) sequence 56 12 16 (length cipher) 56)
          (slice_of_Took-length raw_id 16 id_16 cuts.id)
      ∙ payload-ok

  -- ParseEnvelope reads a session envelope back, field by field.
  pub parse_envelope-session : parse_envelope packet ≡ ok parsed
  unfolding parse_envelope parse_header
  parse_envelope-session =
      bind-ok _
        (validate-ok packet (80 + length cipher) fits cuts.outer (omega (arith, length-packet)))
      ∙ pass (not (is_encrypted_packet packet)) SecureError.not_encrypted _
          (ap not (is_encrypted-ok packet cuts.marked))
      ∙ bind-ok _ (read_uint32-ok packet 2 (omega arith) cuts.kind)
      ∙ session_header-ok
