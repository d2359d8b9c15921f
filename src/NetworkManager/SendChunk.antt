-- ===== src/NetworkManager/SendChunk.antt =====
-- How a chunk becomes a packet of the secure session: the first part of _sendChunkInternal in
-- AgentUDTC++_v7.2/NetworkManager.cpp, with the session of AgentUDTC++_v7.2/UDTConnection.cpp.
use transfer_udt.Common.{ℕ, ◌+◌, ◌-◌, ◌^◌, Option, none, some, ◌==◌, if◌then◌else◌}
use transfer_udt.Common.Bytes.{Bytes}
use transfer_udt.ChunkPacketParser.Packet.{Message}
use transfer_udt.SecurePacket.Crypto.{CryptoOps, Result, ok, err}
use transfer_udt.SecurePacket.Seal.{encrypt_session_packet}
use transfer_udt.SecurityHandshake.Texts.{is_empty}
use transfer_udt.NetworkManager.Serialize.{serialize_chunk_message}

pub record SecureConnection : Type 0 where
  pub secure_session_key : Bytes
  pub secure_session_id : Bytes
  pub next_secure_outbound_sequence : ℕ

-- setSecureSessionId; `none` is its exception.
unfoldable pub set_secure_session_id : Bytes → SecureConnection → Option SecureConnection
set_secure_session_id session_id connection =
    if is_empty session_id
    then none
    else some
        (record connection { secure_session_id = session_id; next_secure_outbound_sequence = 1 })

-- takeNextSecureOutboundSequence; `none` is its exception.
unfoldable pub take_next_secure_outbound_sequence : SecureConnection → Option (ℕ × SecureConnection)
take_next_secure_outbound_sequence connection =
    if is_empty connection.secure_session_id
    then none
    else if connection.next_secure_outbound_sequence == 2 ^ 64 - 1
    then none
    else some (
      connection.next_secure_outbound_sequence,
      record connection {
        next_secure_outbound_sequence = connection.next_secure_outbound_sequence + 1;
      },
    )

unfoldable pub secure_key_for_connection : SecureConnection → Bytes → Bytes
secure_key_for_connection connection fallback_key =
    if is_empty connection.secure_session_key then fallback_key else connection.secure_session_key

abbrev packet_of : Result Bytes → Option Bytes
packet_of (ok packet) = some packet
packet_of (err e) = none

abbrev pub sealed_with :
    CryptoOps
    → Option Bytes
    → Bytes
    → Bytes
    → SecureConnection
    → Option (ℕ × SecureConnection)
    → Option Bytes × SecureConnection
sealed_with ops random serialized key connection none = (none, connection)
sealed_with ops random serialized key connection (some (sequence, next)) = (
  packet_of
      (encrypt_session_packet ops random serialized key connection.secure_session_id sequence),
  next,
)

-- The packet, unless an exception makes the call fail; `random` is the nonce of this packet.
unfoldable pub seal_chunk :
    CryptoOps → Option Bytes → Bytes → Message → SecureConnection → Option Bytes × SecureConnection
seal_chunk ops random fallback_key m connection =
    if is_empty connection.secure_session_id
    then (none, connection)
    else sealed_with ops random (serialize_chunk_message m)
        (secure_key_for_connection connection fallback_key) connection
        (take_next_secure_outbound_sequence connection)
