-- ===== src/ChunkPacketParser.antt =====
-- TransferCore/ChunkPacketParser.h and .cpp: the server's parser of a chunk packet. `Paths` has the
-- checks on names, `Reads` the reads at an offset; the theorems stand in the children below.
pub mod Paths
pub mod Reads
pub mod Binds
pub mod Words
pub mod Fields
pub mod Numbers
pub mod Packet
pub mod Frame
pub mod StringFields
pub mod RoundTrip
pub mod Safety
pub mod Tests
use transfer_udt.Common.{
  ℕ, ◌+◌, ◌-◌, ◌*◌, Bool, not, ◌&&◌, ◌||◌, false, List, [], ltb, leb, ◌==◌, if◌then◌else◌, length,
}
use transfer_udt.Common.Bytes.{Bytes}
use transfer_udt.Common.Int.{to_int}
use transfer_udt.ChunkMetadata.{ChunkMetadata, set_data}
use Paths.{
  PathOps, is_safe_filename, is_safe_relative_directory, max_filename_len, max_directory_len,
}
use Reads.{
  Outcome, ok, err, M, ◌>>=◌, ◌>>◌, ParseError, Field, reject_if, modify, get_offset, read_uint32,
  read_uint64, read_string,
}

abbrev pub max_server_address_len : ℕ
max_server_address_len = 128

abbrev pub sha256_hex_len : ℕ
sha256_hex_len = 64

abbrev pub transfer_id_hex_length : ℕ
transfer_id_hex_length = 64

abbrev pub max_chunk_size_bytes : ℕ
max_chunk_size_bytes = 4 * 1024 * 1024

abbrev pub max_metadata_size_bytes : ℕ
max_metadata_size_bytes = 256 * 1024

abbrev pub max_packet_size_bytes : ℕ
max_packet_size_bytes = max_chunk_size_bytes + max_metadata_size_bytes

abbrev pub max_file_size_bytes : ℕ
max_file_size_bytes = 100 * 1024 * 1024 * 1024

abbrev pub max_total_chunks : ℕ
max_total_chunks = 1_000_000

abbrev all_lower_hex : Bytes → Bool
all_lower_hex [] = Bool.true
all_lower_hex (List.◌∷◌ ch rest) =
    (leb b'0' ch && leb ch b'9' || leb b'a' ch && leb ch b'f') && all_lower_hex rest

-- IsLowerHex of this file refuses the empty string.
unfoldable pub is_lower_hex : Bytes → Bool
is_lower_hex value = if length value == 0 then false else all_lower_hex value

module _ (buffer : Bytes) where
  -- A length, a test of it, the bytes, a test of them, and the setter: the five string fields.
  pub string_field :
      Field
      → Field
      → (ℕ → Bool)
      → ParseError
      → (Bytes → Bool)
      → ParseError
      → (Bytes → ChunkMetadata → ChunkMetadata)
      → M (Unit {0})
  string_field len_field field bad_length length_error bad value_error set = do
    len ← read_uint32 buffer len_field
    reject_if (bad_length len) length_error
    value ← read_string buffer field len
    reject_if (bad value) value_error
    modify (set value)

  unfoldable pub parse_filename : PathOps → M (Unit {0})
  unfolding string_field
  parse_filename fs =
      string_field Field.filename_len Field.filename (λ n. n == 0 || ltb max_filename_len n)
        ParseError.invalid_filename_length (λ s. not (is_safe_filename fs s))
        ParseError.unsafe_filename (λ s c. record c { filename = s })

  unfoldable pub parse_directory : PathOps → M (Unit {0})
  unfolding string_field
  parse_directory fs =
      string_field Field.directory_len Field.directory (λ n. ltb max_directory_len n)
        ParseError.invalid_directory_length (λ s. not (is_safe_relative_directory fs s))
        ParseError.unsafe_directory (λ s c. record c { directory = s })

  -- The address has no second test.
  unfoldable pub parse_server_address : M (Unit {0})
  unfolding string_field
  parse_server_address =
      string_field Field.server_address_len Field.server_address (λ n. ltb max_server_address_len n)
        ParseError.invalid_server_address_length (λ s. false)
        ParseError.invalid_server_address_length (λ s c. record c { server_address = s })

  unfoldable pub parse_transfer_id : M (Unit {0})
  unfolding string_field
  parse_transfer_id =
      string_field Field.transfer_id_len Field.transfer_id (λ n. not (n == transfer_id_hex_length))
        ParseError.invalid_transfer_id_length (λ s. not (is_lower_hex s))
        ParseError.invalid_transfer_id_format (λ s c. record c { transfer_id = s })

  unfoldable pub parse_hash : M (Unit {0})
  unfolding string_field
  parse_hash =
      string_field Field.hash_len Field.hash (λ n. not (n == sha256_hex_len))
        ParseError.invalid_hash_length (λ s. not (is_lower_hex s)) ParseError.invalid_hash_format
        (λ s c. record c { hash = s })

  unfoldable pub parse_chunk_counts : M (Unit {0})
  parse_chunk_counts = do
    chunk_number ← read_uint32 buffer Field.chunk_number
    modify (λ c. record c { chunk_number = to_int chunk_number })
    total_chunks ← read_uint32 buffer Field.total_chunks
    reject_if (ltb max_total_chunks total_chunks) ParseError.too_many_chunks
    reject_if (ltb 0 total_chunks && leb total_chunks chunk_number)
        ParseError.chunk_number_out_of_range
    modify (λ c. record c { total_chunk = to_int total_chunks })

  unfoldable pub parse_chunk_offset : M ℕ
  parse_chunk_offset = do
    chunk_offset ← read_uint64 buffer Field.chunk_offset
    modify (λ c. record c { chunk_offset = chunk_offset })
    λ o c. ok chunk_offset o c

  unfoldable pub parse_total_file_size : M ℕ
  parse_total_file_size = do
    total_file_size ← read_uint64 buffer Field.total_file_size
    reject_if (total_file_size == 0 || ltb max_file_size_bytes total_file_size)
        ParseError.invalid_total_file_size
    modify (λ c. record c { total_file_size = total_file_size })
    λ o c. ok total_file_size o c

  unfoldable pub parse_data : ℕ → ℕ → M (Unit {0})
  parse_data chunk_offset total_file_size = do
    len ← read_uint32 buffer Field.data_len
    reject_if (len == 0 || ltb max_chunk_size_bytes len) ParseError.invalid_chunk_data_size
    reject_if (leb total_file_size chunk_offset || ltb (total_file_size - chunk_offset) len)
        ParseError.range_exceeds_file
    bytes ← read_string buffer Field.chunk_data len
    modify (set_data bytes)

  unfoldable pub parse_total_length : M (Unit {0})
  parse_total_length = do
    reject_if (ltb (length buffer) 4) ParseError.too_small_for_total_length
    total_length ← read_uint32 buffer Field.total_length
    reject_if (ltb max_packet_size_bytes total_length) ParseError.total_length_exceeds_maximum
    offset ← get_offset
    reject_if (not (length buffer == offset + total_length)) ParseError.size_mismatch

  unfoldable pub parse_body : PathOps → M (Unit {0})
  parse_body fs = do
    parse_total_length
    parse_filename fs
    parse_directory fs
    parse_server_address
    parse_transfer_id
    parse_chunk_counts
    chunk_offset ← parse_chunk_offset
    total_file_size ← parse_total_file_size
    parse_hash
    parse_data chunk_offset total_file_size
    offset ← get_offset
    reject_if (not (offset == length buffer)) ParseError.unexpected_trailing_bytes

-- `chunk` is an out parameter: the outcome holds it as the call leaves it, on an error too.
unfoldable pub parse : PathOps → Bytes → ChunkMetadata → Outcome (Unit {0})
parse fs buffer chunk = parse_body buffer fs 0 chunk
