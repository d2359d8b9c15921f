-- ===== src/NetworkManager/Serialize.antt =====
-- NetworkManager::serializeChunkMessage (AgentUDTC++_v7.2/NetworkManager.cpp): a buffer of the final
-- size is filled by copies at a moving offset.
pub mod Encodes
use transfer_udt.Common.{
  ℕ, ◌+◌, ◌*◌, ◌/◌, ◌%◌, ◌^◌, ◌++◌, length, take, drop, replicate, ltb, if◌then◌else◌,
}
use transfer_udt.Common.Bytes.{Bytes, uint32_bytes}
use transfer_udt.ChunkPacketParser.Packet.{Message}

abbrev pub zeros : ℕ → Bytes
zeros n = replicate n 0

pub record Writer : Type 0 where
  pub buffer : Bytes
  pub offset : ℕ

-- memcpy to `buffer.data() + offset`, within the buffer, and the offset moved on.
unfoldable pub put : Bytes → Writer → Writer
put bytes w = record {
  buffer = take w.offset w.buffer ++ (bytes ++ drop (w.offset + length bytes) w.buffer);
  offset = w.offset + length bytes;
}

abbrev pub cast_uint32 : ℕ → ℕ
cast_uint32 n = n % 2 ^ 32

abbrev pub put_uint32 : ℕ → Writer → Writer
put_uint32 v w = put (uint32_bytes v) w

abbrev pub put_uint64 : ℕ → Writer → Writer
put_uint64 v w = put_uint32 (cast_uint32 v) (put_uint32 (cast_uint32 (v / 2 ^ 32)) w)

-- The length in 32 bits, then as many bytes, if there are any.
unfoldable pub put_string : Bytes → Writer → Writer
put_string s w =
    let len = cast_uint32 (length s) in
    let headed = put_uint32 len w in if ltb 0 len then put (take len s) headed else headed

-- uint32_t contentLength
unfoldable pub content_size : Message → ℕ
content_size m = cast_uint32 (
    4
    + cast_uint32 (length m.filename)
    + 4
    + cast_uint32 (length m.directory)
    + 4
    + cast_uint32 (length m.server_address)
    + 4
    + cast_uint32 (length m.transfer_id)
    + 4
    + 4
    + 8
    + 8
    + 4
    + cast_uint32 (length m.hash)
    + 4
    + cast_uint32 (length m.chunk_data))

unfoldable pub serialize_chunk_message : Message → Bytes
serialize_chunk_message m =
    let w0 : Writer = record { buffer = zeros (4 + content_size m); offset = 0 } in
    let w1 = put_uint32 (content_size m) w0 in
    let w2 = put_string m.filename w1 in
    let w3 = put_string m.directory w2 in
    let w4 = put_string m.server_address w3 in
    let w5 = put_string m.transfer_id w4 in
    let w6 = put_uint32 m.total_chunks (put_uint32 m.chunk_number w5) in
    let w7 = put_uint64 m.chunk_offset w6 in
    let w8 = put_uint64 m.total_file_size w7 in
    let w9 = put_string m.hash w8 in (put_string m.chunk_data w9).buffer
