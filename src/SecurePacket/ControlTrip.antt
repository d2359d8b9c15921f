-- ===== src/SecurePacket/ControlTrip.antt =====
-- A control message of TransferCore/SecurePacket.cpp comes back as it was sent.
use transfer_udt.Common.{
  ℕ, ◌+◌, ◌-◌, ◌^◌, ◌≤◌, ◌<◌, ◌≡◌, refl, ap, ◌∙◌, true, not, ◌++◌, length, ltb, ◌==◌, arith, some,
  length-append,
}
use transfer_udt.Common.Bytes.{Bytes, uint32_bytes, length-uint32_bytes}
use transfer_udt.Common.Cuts.{Took-whole, Took-split_at}
use transfer_udt.SecurePacket.Crypto.{ok, SecureError, CryptoOps}
use transfer_udt.SecurePacket.Hex.{is_valid_session_id, pairs_to_bytes}
use transfer_udt.SecurePacket.Envelope.{validate_packet_length}
use transfer_udt.SecurePacket.Reading.{bind-ok, pass, read_uint32-ok, validate-ok}
use transfer_udt.SecurePacket.RoundTrip.{CryptoLaws, header_of, decrypt-encrypt_session}
use transfer_udt.SecurePacket.Control.{
  build_control_packet, read_control_packet, max_control_message_bytes,
  encrypt_session_control_message, decrypt_session_control_message,
}

abbrev pub control_packet : Bytes → Bytes
control_packet message = uint32_bytes (length message) ++ message

module _ (message : Bytes) (short : length message ≤ max_control_message_bytes) where
  length-control_packet : length (control_packet message) ≡ 4 + length message
  length-control_packet = omega (
    arith,
    length-append (uint32_bytes (length message)) message,
    length-uint32_bytes (length message),
  )

  build-ok : build_control_packet message ≡ ok (control_packet message)
  unfolding build_control_packet
  build-ok =
      pass (ltb 65536 (length message)) SecureError.control_too_long _ (ground arith)
      ∙ ap (λ n. ok (uint32_bytes n ++ message)) (omega arith)

  pub control_packet-valid : validate_packet_length (control_packet message) ≡ ok tt
  control_packet-valid =
      let (t, _) =
        Took-split_at 4 (uint32_bytes (length message)) message
          (omega (arith, length-uint32_bytes (length message)))
          (Took-whole (control_packet message) (control_packet message) refl) in
      validate-ok (control_packet message) (length message) (omega arith) t length-control_packet

  read-ok : read_control_packet (control_packet message) ≡ ok message
  unfolding read_control_packet
  read-ok =
      let (t, _) =
        Took-split_at 4 (uint32_bytes (length message)) message
          (omega (arith, length-uint32_bytes (length message)))
          (Took-whole (control_packet message) (control_packet message) refl) in
      bind-ok _ (read_uint32-ok (control_packet message) (length message) (omega arith) t)
      ∙ pass (ltb 65536 (length message)) SecureError.control_too_long _ (ground arith)
      ∙ pass (not (length (control_packet message) - 4 == length message))
          SecureError.control_length_mismatch _ (ground (arith, length-control_packet))
      ∙ ap ok (unfold uint32_bytes in refl)

-- With a valid session id, a positive 64-bit sequence number, a message of at most 64 KiB, a nonce
-- of 12 bytes, a pre-shared key from which a key is derived, and an encryption call that succeeds:
-- the session overload of EncryptControlMessage returns a packet of 88 bytes more than the message,
-- and DecryptControlMessage for the same session and key returns the message, with that session id
-- and sequence number.
pub decrypt-encrypt_control :
    (ops : CryptoOps) (laws : CryptoLaws ops) (sid psk message key nonce cipher tag : Bytes)
    (sequence : ℕ)
    → is_valid_session_id sid ≡ true
    → 0 < sequence
    → sequence < 2 ^ 64
    → length message ≤ max_control_message_bytes
    → length nonce ≡ 12
    → 0 < length psk
    → ops.hkdf psk ≡ some key
    → ops.gcm_encrypt key nonce
        (header_of (pairs_to_bytes sid) sequence (control_packet message))
        (control_packet message)
      ≡ some (cipher, tag)
    → (packet : Bytes) × (encrypt_session_control_message ops (some nonce) message psk sid sequence
        ≡ ok packet)
      × (length packet ≡ 88 + length message)
      × (decrypt_session_control_message ops packet psk sid
          ≡ ok (message, record { session_id = sid; sequence_number = sequence }))
unfolding encrypt_session_control_message decrypt_session_control_message
decrypt-encrypt_control ops laws sid psk message key nonce cipher tag sequence valid positive fits
      short nonce_12 has_key derived gcm =
    let (packet, enc, len, dec) =
      decrypt-encrypt_session ops laws sid psk (control_packet message) key nonce cipher tag
        sequence valid positive fits (control_packet-valid message short)
        (omega (arith, length-control_packet message short)) nonce_12 has_key derived gcm in
    (
      packet,
      bind-ok _ (build-ok message short) ∙ enc,
      omega (arith, len, length-control_packet message short),
      bind-ok _ dec ∙ bind-ok _ (read-ok message short),
    )
