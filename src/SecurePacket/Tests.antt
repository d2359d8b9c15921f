-- ===== src/SecurePacket/Tests.antt =====
-- Runs of TransferCore/SecurePacket.cpp over a toy cipher, and its theorems there.
use transfer_udt.Common.{◌+◌, ◌≡◌, ◌≢◌, refl, ap, true, [], ◌∷◌, length, replicate, some, arith}
use transfer_udt.Common.Bytes.{Bytes, codes, uint32_bytes, uint32_of}
use transfer_udt.SecurePacket.Crypto.{
  CryptoOps, Result, ok, err, SecureError, opened, derive_key, aes_256_gcm_encrypt,
  aes_256_gcm_decrypt,
}
use transfer_udt.SecurePacket.Hex.{is_lower_hex, is_valid_session_id}
use transfer_udt.SecurePacket.Envelope.{
  validate_packet_length, read_uint32, is_encrypted_packet, parse_envelope, parse_header,
  parse_legacy_header, parse_payload,
}
use transfer_udt.SecurePacket.Seal.{encrypt_packet, encrypt_legacy_packet, encrypt_session_packet}
use transfer_udt.SecurePacket.Unseal.{decrypt_packet, decrypt_session_packet, decrypt_envelope}
use transfer_udt.SecurePacket.Control.{
  encrypt_session_control_message, decrypt_session_control_message,
  max_session_encrypted_content_length,
}
use transfer_udt.SecurePacket.RoundTrip.{
  CryptoLaws, decrypt-encrypt_session, session_packet_refused,
}
use transfer_udt.SecurePacket.ControlTrip.{decrypt-encrypt_control, control_packet}

-- A cipher that hides nothing, with a constant tag.
abbrev toy : CryptoOps
toy = record {
  hkdf = λ psk. some (replicate 32 1);
  gcm_encrypt = λ key nonce aad plain. some (plain, replicate 16 0);
  gcm_decrypt = λ key nonce tag aad cipher. opened cipher;
}

toy-laws : CryptoLaws toy
toy-laws = record {
  cipher_length = λ key nonce aad plain cipher tag h. ground (arith, h);
  tag_length = λ key nonce aad plain cipher tag h. ground (arith, h);
  undone = λ key nonce aad plain cipher tag h. ground (arith, h);
}

abbrev session : Bytes
session = replicate 32 b'a'

abbrev other_session : Bytes
other_session = replicate 32 b'b'

session-valid : is_valid_session_id session ≡ true
unfolding is_valid_session_id is_lower_hex
session-valid = refl

other_session-valid : is_valid_session_id other_session ≡ true
unfolding is_valid_session_id is_lower_hex
other_session-valid = refl

other_session-ne : other_session ≢ session
unfolding uint32_of
other_session-ne h = omega (arith, ap uint32_of h)

abbrev secret : Bytes
secret = codes "secret"

abbrev nonce : Bytes
nonce = replicate 12 9

abbrev plain : Bytes
plain = 0 ∷ 0 ∷ 0 ∷ 2 ∷ b'h' ∷ b'i' ∷ []

plain-framed : validate_packet_length plain ≡ ok tt
unfolding validate_packet_length read_uint32 uint32_of
plain-framed = refl

decrypt-encrypt_session_example :
    (packet : Bytes) × (encrypt_session_packet toy (some nonce) plain secret session 5 ≡ ok packet)
    × (length packet ≡ 4 + max_session_encrypted_content_length 6)
    × (decrypt_session_packet toy packet secret session
        ≡ ok (plain, record { session_id = session; sequence_number = 5 }))
decrypt-encrypt_session_example =
    decrypt-encrypt_session toy toy-laws session secret plain (replicate 32 1) nonce plain
      (replicate 16 0) 5 session-valid (omega arith) (omega arith) plain-framed (omega arith) refl
      (omega arith) refl refl

session_packet_refused_example :
    (packet : Bytes) × (encrypt_session_packet toy (some nonce) plain secret session 5 ≡ ok packet)
    × (decrypt_session_packet toy packet secret other_session ≡ err SecureError.session_mismatch)
    × (decrypt_packet toy packet secret ≡ err SecureError.session_packet_unexpected)
session_packet_refused_example =
    session_packet_refused toy toy-laws session secret plain (replicate 32 1) nonce plain
      (replicate 16 0) 5 session-valid (omega arith) (omega arith) plain-framed (omega arith) refl
      (omega arith) refl refl other_session secret other_session-valid other_session-ne

decrypt-encrypt_control_example :
    (packet : Bytes) × (encrypt_session_control_message toy
        (some nonce)
        (codes "OK")
        secret
        session
        1
      ≡ ok packet)
    × (length packet ≡ 90)
    × (decrypt_session_control_message toy packet secret session
        ≡ ok (codes "OK", record { session_id = session; sequence_number = 1 }))
decrypt-encrypt_control_example =
    decrypt-encrypt_control toy toy-laws session secret (codes "OK") (replicate 32 1) nonce
      (control_packet (codes "OK")) (replicate 16 0) 1 session-valid (omega arith) (omega arith)
      (omega arith) refl (omega arith) refl refl

-- The legacy overloads, run.
legacy_round_trip : Result Bytes
legacy_round_trip = seal_and_open (encrypt_packet toy (some nonce) plain secret)
  where
    seal_and_open : Result Bytes → Result Bytes
    seal_and_open (ok packet) = decrypt_packet toy packet secret
    seal_and_open (err e) = err e

legacy_round_trip_lem : legacy_round_trip ≡ ok plain
unfolding legacy_round_trip encrypt_packet encrypt_legacy_packet decrypt_packet decrypt_envelope
    derive_key aes_256_gcm_encrypt aes_256_gcm_decrypt validate_packet_length read_uint32
    is_encrypted_packet parse_envelope parse_header parse_legacy_header parse_payload uint32_of
    uint32_bytes
legacy_round_trip_lem = refl
