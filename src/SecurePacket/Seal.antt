-- ===== src/SecurePacket/Seal.antt =====
-- The two EncryptPacket functions of TransferCore/SecurePacket.cpp. What RAND_bytes gives is an
-- argument: `none` where it fails.
use transfer_udt.Common.{ℕ, ◌+◌, ◌-◌, ◌/◌, ◌%◌, ◌^◌, not, ◌||◌, Option, [], ◌++◌, length, ltb, ◌==◌}
use transfer_udt.Common.Bytes.{Bytes, uint32_bytes}
use transfer_udt.SecurePacket.Crypto.{
  Result, ok, SecureError, CryptoOps, ◌>>=◌, ◌>>◌, throw_if, or_throw, derive_key,
  aes_256_gcm_encrypt,
}
use transfer_udt.SecurePacket.Hex.{from_hex, is_valid_session_id}
use transfer_udt.SecurePacket.Envelope.{
  magic, legacy_version, version, nonce_size, tag_size, legacy_header_fields_size,
  session_header_fields_size, validate_packet_length,
}

abbrev pub uint32_max : ℕ
uint32_max = 2 ^ 32 - 1

-- AppendUint32 of a value that is cast to 32 bits, at the end of the vector.
abbrev pub append_uint32 : Bytes → ℕ → Bytes
append_uint32 out value = out ++ uint32_bytes (value % 2 ^ 32)

abbrev pub append_uint64 : Bytes → ℕ → Bytes
append_uint64 out value = append_uint32 (append_uint32 out (value / 2 ^ 32)) value

-- The header is what is authenticated beside the plain text.
abbrev pub session_header : ℕ → Bytes → Bytes → ℕ → Bytes
session_header content_length raw_id plain sequence =
    let h0 = uint32_bytes (content_length % 2 ^ 32) ++ magic in
    let h1 = append_uint32 h0 version in
    let h2 = append_uint32 h1 (length raw_id) in
    let h3 = append_uint64 h2 sequence in
    let h4 = append_uint32 h3 nonce_size in
    let h5 = append_uint32 h4 tag_size in let h6 = append_uint32 h5 (length plain) in h6 ++ raw_id

module _ (ops : CryptoOps) where
  unfoldable pub encrypt_legacy_packet : Option Bytes → Bytes → Bytes → Result Bytes
  encrypt_legacy_packet random plain pre_shared_key = do
    throw_if (ltb uint32_max (length plain)) SecureError.plaintext_too_long
    nonce ← or_throw random SecureError.nonce_failed
    key ← derive_key ops pre_shared_key
    (cipher, tag) ← aes_256_gcm_encrypt ops plain key nonce []
    let content_length = legacy_header_fields_size + length nonce + length tag + length cipher
    throw_if (ltb uint32_max content_length) SecureError.packet_too_long
    let h0 = uint32_bytes (content_length % 2 ^ 32) ++ magic
    let h1 = append_uint32 h0 legacy_version
    let h2 = append_uint32 h1 (length nonce)
    let h3 = append_uint32 h2 (length tag)
    let h4 = append_uint32 h3 (length cipher)
    ok (((h4 ++ nonce) ++ tag) ++ cipher)

  unfoldable pub encrypt_packet : Option Bytes → Bytes → Bytes → Result Bytes
  encrypt_packet random plain pre_shared_key = do
    validate_packet_length plain
    encrypt_legacy_packet random plain pre_shared_key

  unfoldable pub encrypt_session_packet : Option Bytes → Bytes → Bytes → Bytes → ℕ → Result Bytes
  encrypt_session_packet random plain pre_shared_key session_id sequence = do
    validate_packet_length plain
    throw_if (not (is_valid_session_id session_id) || sequence == 0)
        SecureError.invalid_session_or_sequence
    throw_if (ltb uint32_max (length plain)) SecureError.plaintext_too_long
    raw_id ← from_hex session_id
    nonce ← or_throw random SecureError.nonce_failed
    let content_length =
        session_header_fields_size + length raw_id + length nonce + tag_size + length plain
    throw_if (ltb uint32_max content_length) SecureError.packet_too_long
    let header = session_header content_length raw_id plain sequence
    key ← derive_key ops pre_shared_key
    (cipher, tag) ← aes_256_gcm_encrypt ops plain key nonce header
    throw_if (not (length cipher == length plain)) SecureError.unexpected_cipher_length
    ok (((header ++ nonce) ++ tag) ++ cipher)
