-- ===== src/SecurePacket/Control.antt =====
-- Control messages of TransferCore/SecurePacket.cpp: a text with its length, in an envelope.
use transfer_udt.Common.{ℕ, ◌+◌, ◌-◌, ◌*◌, ◌%◌, ◌^◌, not, Option, ◌++◌, length, ltb, ◌==◌, drop}
use transfer_udt.Common.Bytes.{Bytes, uint32_bytes}
use transfer_udt.SecurePacket.Crypto.{Result, ok, SecureError, CryptoOps, ◌>>=◌, ◌>>◌, throw_if}
use transfer_udt.SecurePacket.Hex.{session_id_bytes}
use transfer_udt.SecurePacket.Envelope.{read_uint32, magic_size, nonce_size, tag_size}
use transfer_udt.SecurePacket.Seal.{encrypt_packet, encrypt_session_packet}
use transfer_udt.SecurePacket.Unseal.{SessionMetadata, decrypt_packet, decrypt_session_packet}

abbrev pub max_control_message_bytes : ℕ
max_control_message_bytes = 64 * 1024

abbrev pub session_encrypted_content_overhead : ℕ
session_encrypted_content_overhead =
    magic_size + 4 * 5 + 8 + session_id_bytes + nonce_size + tag_size

abbrev pub max_session_encrypted_content_length : ℕ → ℕ
max_session_encrypted_content_length plain_length =
    (plain_length + session_encrypted_content_overhead) % 2 ^ 64

unfoldable pub build_control_packet : Bytes → Result Bytes
build_control_packet message = do
  throw_if (ltb max_control_message_bytes (length message)) SecureError.control_too_long
  ok (uint32_bytes (length message % 2 ^ 32) ++ message)

unfoldable pub read_control_packet : Bytes → Result Bytes
read_control_packet plain = do
  (message_len, offset) ← read_uint32 plain 0
  throw_if (ltb max_control_message_bytes message_len) SecureError.control_too_long
  throw_if (not (length plain - offset == message_len)) SecureError.control_length_mismatch
  ok (drop offset plain)

module _ (ops : CryptoOps) where
  unfoldable pub encrypt_control_message : Option Bytes → Bytes → Bytes → Result Bytes
  encrypt_control_message random message pre_shared_key = do
    plain ← build_control_packet message
    encrypt_packet ops random plain pre_shared_key

  unfoldable pub decrypt_control_message : Bytes → Bytes → Result Bytes
  decrypt_control_message packet pre_shared_key = do
    plain ← decrypt_packet ops packet pre_shared_key
    read_control_packet plain

  unfoldable pub encrypt_session_control_message :
      Option Bytes → Bytes → Bytes → Bytes → ℕ → Result Bytes
  encrypt_session_control_message random message pre_shared_key session_id sequence = do
    plain ← build_control_packet message
    encrypt_session_packet ops random plain pre_shared_key session_id sequence

  unfoldable pub decrypt_session_control_message :
      Bytes → Bytes → Bytes → Result (Bytes × SessionMetadata)
  decrypt_session_control_message packet pre_shared_key expected_id = do
    (plain, metadata) ← decrypt_session_packet ops packet pre_shared_key expected_id
    message ← read_control_packet plain
    ok (message, metadata)
