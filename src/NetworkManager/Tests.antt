-- ===== src/NetworkManager/Tests.antt =====
-- The writer of AgentUDTC++_v7.2/NetworkManager.cpp and the parser, at a packet of one byte.
use transfer_udt.Common.{◌≡◌, length, arith}
use transfer_udt.ChunkMetadata.{empty_chunk}
use transfer_udt.ChunkPacketParser.Reads.{ok}
use transfer_udt.ChunkPacketParser.Packet.{encode}
use transfer_udt.ChunkPacketParser.Tests.{posix, small_message, small_message-IsAcceptable, stored}
use transfer_udt.ChunkPacketParser.{parse}
use transfer_udt.NetworkManager.Serialize.{serialize_chunk_message}
use transfer_udt.NetworkManager.Serialize.Encodes.{serialize-eq-encode, parse-serialize}

serialize-eq-encode_example : serialize_chunk_message small_message ≡ encode small_message
serialize-eq-encode_example = serialize-eq-encode small_message (omega arith)

parse-serialize_example :
    parse posix (serialize_chunk_message small_message) empty_chunk
    ≡ ok tt (length (serialize_chunk_message small_message)) stored
parse-serialize_example = parse-serialize posix small_message empty_chunk small_message-IsAcceptable
