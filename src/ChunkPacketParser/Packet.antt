-- ===== src/ChunkPacketParser/Packet.antt =====
-- The wire format of a chunk packet, written down independently of the parser: what a message is,
-- when the server accepts it, and its bytes (TransferCore/ChunkPacketParser.cpp).
use transfer_udt.Common.{ℕ, ◌+◌, ◌^◌, ◌≤◌, ◌<◌, ◌≡◌, true, ◌++◌, length, arith, length-append}
use transfer_udt.Common.Int.{to_int}
use transfer_udt.Common.Bytes.{
  Bytes, uint32_bytes, uint64_bytes, length-uint32_bytes, length-uint64_bytes,
}
use transfer_udt.ChunkMetadata.{ChunkMetadata, set_data}
use transfer_udt.ChunkPacketParser.Paths.{
  PathOps, is_safe_filename, is_safe_relative_directory, max_filename_len, max_directory_len,
}
use transfer_udt.ChunkPacketParser.Fields.{encode_string}
use transfer_udt.ChunkPacketParser.Numbers.{GoodCounts, GoodData}
use transfer_udt.ChunkPacketParser.{
  is_lower_hex, max_server_address_len, transfer_id_hex_length, sha256_hex_len,
  max_packet_size_bytes, max_file_size_bytes,
}

pub record Message : Type 0 where
  pub filename : Bytes
  pub directory : Bytes
  pub server_address : Bytes
  pub transfer_id : Bytes
  pub chunk_number : ℕ
  pub total_chunks : ℕ
  pub chunk_offset : ℕ
  pub total_file_size : ℕ
  pub hash : Bytes
  pub chunk_data : Bytes

pub record IsAcceptable (fs : PathOps) (m : Message) : Type 0 where
  pub safe_filename : is_safe_filename fs m.filename ≡ true
  pub safe_directory : is_safe_relative_directory fs m.directory ≡ true
  pub short_address : length m.server_address ≤ max_server_address_len
  pub id_length : length m.transfer_id ≡ transfer_id_hex_length
  pub id_hex : is_lower_hex m.transfer_id ≡ true
  pub number_fits : m.chunk_number < 2 ^ 32
  pub good_counts : GoodCounts m.chunk_number m.total_chunks
  pub file_not_empty : 0 < m.total_file_size
  pub file_not_huge : m.total_file_size ≤ max_file_size_bytes
  pub hash_length : length m.hash ≡ sha256_hex_len
  pub hash_hex : is_lower_hex m.hash ≡ true
  pub good_data : GoodData m.chunk_offset m.total_file_size m.chunk_data

abbrev pub content : Message → Bytes
content m =
    encode_string m.filename
    ++ (encode_string m.directory
        ++ (encode_string m.server_address
            ++ (encode_string m.transfer_id
                ++ ((uint32_bytes m.chunk_number ++ uint32_bytes m.total_chunks)
                    ++ (uint64_bytes m.chunk_offset
                        ++ (uint64_bytes m.total_file_size
                            ++ (encode_string m.hash ++ encode_string m.chunk_data)))))))

abbrev pub encode : Message → Bytes
encode m = uint32_bytes (length (content m)) ++ content m

-- What Parse leaves in the chunk.
abbrev pub store : Message → ChunkMetadata → ChunkMetadata
store m c = set_data m.chunk_data (record c {
  filename = m.filename;
  directory = m.directory;
  server_address = m.server_address;
  transfer_id = m.transfer_id;
  chunk_number = to_int m.chunk_number;
  total_chunk = to_int m.total_chunks;
  chunk_offset = m.chunk_offset;
  total_file_size = m.total_file_size;
  hash = m.hash;
})

length-encode_string : (s : Bytes) → length (encode_string s) ≡ 4 + length s
length-encode_string s =
    omega (arith, length-append (uint32_bytes (length s)) s, length-uint32_bytes (length s))

abbrev pub content_length : Message → ℕ
content_length m =
    length m.filename
    + length m.directory
    + length m.server_address
    + length m.transfer_id
    + length m.hash
    + length m.chunk_data
    + 48

pub length-content : (m : Message) → length (content m) ≡ content_length m
length-content m = simp (length-append, length-uint32_bytes, length-uint64_bytes) (omega arith)

pub safe_filename_length :
    (fs : PathOps) (s : Bytes)
    → is_safe_filename fs s ≡ true
    → (0 < length s) × (length s ≤ max_filename_len)
unfolding is_safe_filename
safe_filename_length fs s h = ground arith

pub safe_directory_length :
    (fs : PathOps) (s : Bytes)
    → is_safe_relative_directory fs s ≡ true
    → length s ≤ max_directory_len
unfolding is_safe_relative_directory
safe_directory_length fs s h = ground arith

-- Every acceptable message is within the size of a packet.
pub content-le-max :
    (fs : PathOps) (m : Message) → IsAcceptable fs m → length (content m) ≤ max_packet_size_bytes
content-le-max fs m v = omega (
  arith,
  length-content m,
  safe_filename_length fs m.filename v.safe_filename,
  safe_directory_length fs m.directory v.safe_directory,
)
