-- ===== src/SecurePacket/Envelope.antt =====
-- ReadUint32, ReadUint64, ValidatePacketLength, IsEncryptedPacket and ParseEnvelope of
-- TransferCore/SecurePacket.cpp.
use transfer_udt.Common.{
  ℕ, ◌+◌, ◌-◌, ◌*◌, ◌^◌, Bool, false, not, ◌||◌, [], length, ltb, ◌==◌, if◌then◌else◌,
}
use transfer_udt.Common.Bytes.{Bytes, slice, uint32_of, codes, bytes_eq}
use transfer_udt.SecurePacket.Crypto.{Result, ok, err, SecureError, ◌>>=◌, ◌>>◌, throw_if}
use transfer_udt.SecurePacket.Hex.{to_hex, session_id_bytes}

abbrev pub magic : Bytes
magic = codes "TUDTSEC1"

abbrev pub magic_size : ℕ
magic_size = 8

abbrev pub legacy_version : ℕ
legacy_version = 1

abbrev pub version : ℕ
version = 2

abbrev pub nonce_size : ℕ
nonce_size = 12

abbrev pub tag_size : ℕ
tag_size = 16

abbrev pub outer_length_size : ℕ
outer_length_size = 4

abbrev pub legacy_header_fields_size : ℕ
legacy_header_fields_size = magic_size + 4 * 4

abbrev pub session_header_fields_size : ℕ
session_header_fields_size = magic_size + 4 * 5 + 8

-- The nonce and the tag are pointers into the packet; here they are the bytes there.
pub record ParsedEnvelope : Type 0 where
  pub version : ℕ
  pub session_id : Bytes
  pub sequence_number : ℕ
  pub nonce : Bytes
  pub tag : Bytes
  pub cipher_offset : ℕ
  pub cipher_size : ℕ
  pub authenticated_header_size : ℕ

module _ (buffer : Bytes) where
  -- The value, and the offset behind it.
  unfoldable pub read_uint32 : ℕ → Result (ℕ × ℕ)
  read_uint32 offset =
      if ltb (length buffer) offset || ltb (length buffer - offset) 4
      then err SecureError.truncated
      else ok (uint32_of (slice offset 4 buffer), offset + 4)

  unfoldable pub read_uint64 : ℕ → Result (ℕ × ℕ)
  read_uint64 offset = do
    (high, o) ← read_uint32 offset
    (low, o') ← read_uint32 o
    ok (high * 2 ^ 32 + low, o')

  unfoldable pub validate_packet_length : Result (Unit {0})
  validate_packet_length = do
    throw_if (ltb (length buffer) outer_length_size) SecureError.too_small
    (content_length, _) ← read_uint32 0
    throw_if (not (length buffer == outer_length_size + content_length)) SecureError.length_mismatch

  unfoldable pub is_encrypted_packet : Bool
  is_encrypted_packet =
      if ltb (length buffer) (outer_length_size + magic_size)
      then false
      else bytes_eq (slice outer_length_size magic_size buffer) magic

  -- The nonce, the tag and the cipher text, from `offset` on.
  unfoldable pub parse_payload : ℕ → Bytes → ℕ → ℕ → ℕ → ℕ → ℕ → ℕ → Result ParsedEnvelope
  parse_payload v session_id sequence header_size nonce_len tag_len cipher_len offset = do
    throw_if (not (nonce_len == nonce_size) || not (tag_len == tag_size))
        SecureError.invalid_nonce_or_tag_length
    throw_if (not (length buffer - offset == nonce_len + tag_len + cipher_len))
        SecureError.payload_length_mismatch
    ok (record {
      version = v;
      session_id = session_id;
      sequence_number = sequence;
      nonce = slice offset nonce_len buffer;
      tag = slice (offset + nonce_len) tag_len buffer;
      cipher_offset = offset + nonce_len + tag_len;
      cipher_size = cipher_len;
      authenticated_header_size = header_size;
    })

  unfoldable pub parse_legacy_header : ℕ → Result ParsedEnvelope
  parse_legacy_header offset = do
    (nonce_len, o1) ← read_uint32 offset
    (tag_len, o2) ← read_uint32 o1
    (cipher_len, o3) ← read_uint32 o2
    parse_payload legacy_version [] 0 0 nonce_len tag_len cipher_len o3

  unfoldable pub parse_session_header : ℕ → Result ParsedEnvelope
  parse_session_header offset = do
    (session_id_len, o1) ← read_uint32 offset
    (sequence, o2) ← read_uint64 o1
    (nonce_len, o3) ← read_uint32 o2
    (tag_len, o4) ← read_uint32 o3
    (cipher_len, o5) ← read_uint32 o4
    throw_if (not (session_id_len == session_id_bytes) || sequence == 0)
        SecureError.invalid_session_metadata
    throw_if (ltb (length buffer - o5) session_id_len) SecureError.session_id_truncated
    parse_payload version (to_hex (slice o5 session_id_len buffer)) sequence (o5 + session_id_len)
        nonce_len tag_len cipher_len (o5 + session_id_len)

  unfoldable pub parse_header : ℕ → ℕ → Result ParsedEnvelope
  parse_header v offset =
      if v == legacy_version
      then parse_legacy_header offset
      else (if v == version
          then parse_session_header offset
          else err SecureError.unsupported_version)

  unfoldable pub parse_envelope : Result ParsedEnvelope
  parse_envelope = do
    validate_packet_length
    throw_if (not is_encrypted_packet) SecureError.not_encrypted
    (v, offset) ← read_uint32 (outer_length_size + magic_size)
    parse_header v offset
