-- ===== src/SecurePacket/Unseal.antt =====
-- The two DecryptPacket functions, TryGetNonceHex and TryGetSessionMetadata of
-- TransferCore/SecurePacket.cpp.
use transfer_udt.Common.{ℕ, not, Option, some, none, [], ◌==◌, take, if◌then◌else◌}
use transfer_udt.Common.Bytes.{Bytes, slice, bytes_eq}
use transfer_udt.SecurePacket.Crypto.{
  Result, ok, err, SecureError, CryptoOps, ◌>>=◌, ◌>>◌, throw_if, derive_key, aes_256_gcm_decrypt,
}
use transfer_udt.SecurePacket.Hex.{is_valid_session_id, to_hex}
use transfer_udt.SecurePacket.Envelope.{
  ParsedEnvelope, legacy_version, version, parse_envelope, validate_packet_length,
}

pub record SessionMetadata : Type 0 where
  pub session_id : Bytes
  pub sequence_number : ℕ

-- A handler that catches every exception.
abbrev pub caught : {A : Type 0} → Result A → Option A
caught (ok a) = some a
caught (err e) = none

unfoldable pub try_get_nonce_hex : Bytes → Option Bytes
try_get_nonce_hex packet = caught (do envelope ← parse_envelope packet; ok (to_hex envelope.nonce))

abbrev metadata_of : ParsedEnvelope → Option SessionMetadata
metadata_of e =
    if not (e.version == version)
    then none
    else some (record { session_id = e.session_id; sequence_number = e.sequence_number })

abbrev joined : {A : Type 0} → Option (Option A) → Option A
joined none = none
joined (some o) = o

unfoldable pub try_get_session_metadata : Bytes → Option SessionMetadata
try_get_session_metadata packet =
    joined (caught (do envelope ← parse_envelope packet; ok (metadata_of envelope)))

module _ (ops : CryptoOps) where
  unfoldable pub decrypt_envelope : Bytes → Bytes → ParsedEnvelope → Bytes → Result Bytes
  decrypt_envelope packet pre_shared_key e authenticated = do
    key ← derive_key ops pre_shared_key
    plain ←
        aes_256_gcm_decrypt ops (slice e.cipher_offset e.cipher_size packet) key e.nonce e.tag
          authenticated
    validate_packet_length plain
    ok plain

  unfoldable pub decrypt_packet : Bytes → Bytes → Result Bytes
  decrypt_packet packet pre_shared_key = do
    envelope ← parse_envelope packet
    throw_if (not (envelope.version == legacy_version)) SecureError.session_packet_unexpected
    decrypt_envelope packet pre_shared_key envelope []

  unfoldable pub decrypt_session_packet : Bytes → Bytes → Bytes → Result (Bytes × SessionMetadata)
  decrypt_session_packet packet pre_shared_key expected_id = do
    throw_if (not (is_valid_session_id expected_id)) SecureError.invalid_expected_session
    envelope ← parse_envelope packet
    throw_if (not (envelope.version == version)) SecureError.session_version_required
    throw_if (not (bytes_eq envelope.session_id expected_id)) SecureError.session_mismatch
    plain ←
        decrypt_envelope packet pre_shared_key envelope
          (take envelope.authenticated_header_size packet)
    ok (
      plain,
      record { session_id = envelope.session_id; sequence_number = envelope.sequence_number },
    )
