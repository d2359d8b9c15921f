-- ===== src/ChunkPacketParser/Tests.antt =====
-- Runs of the parser of TransferCore/ChunkPacketParser.cpp, and its theorems at a packet of one byte.
use transfer_udt.Common.{
  ℕ, ◌^◌, ◌<◌, ◌≤◌, ◌+◌, ◌≡◌, ◌≢◌, ◌↔◌, refl, inl, inr, Bool, true, false, List, [], ◌∷◌, ◌++◌,
  ◌==◌, if◌then◌else◌, length, replicate, All, arith,
}
use transfer_udt.Common.Int.{negsuc}
use transfer_udt.Common.Bytes.{
  Bytes, IsByte, codes, uint32_bytes, uint64_bytes, uint32_of, all_bytes_sound,
}
use transfer_udt.ChunkMetadata.{ChunkMetadata, empty_chunk}
use transfer_udt.ChunkPacketParser.Reads.{ok, err, Outcome, ensure_available, read_uint32}
use transfer_udt.ChunkPacketParser.Paths.{
  PathOps, is_safe_filename, is_safe_relative_directory, has_control_chars, has_any_of,
  has_bad_segment, mem_byte, max_filename_len,
}
use transfer_udt.ChunkPacketParser.Packet.{Message, IsAcceptable, encode, store}
use transfer_udt.ChunkPacketParser.RoundTrip.{parse_iff}
use transfer_udt.ChunkPacketParser.Safety.{
  IsPlain, IsInner, parse-filename_confined, parse-directory_confined, parse-data_within_file,
  parse_prefix_free, parse-chunk_number_negative,
}
use transfer_udt.ChunkPacketParser.{
  parse, parse_body, parse_total_length, is_lower_hex, max_chunk_size_bytes, max_file_size_bytes,
}

abbrev starts_with_slash : Bytes → Bool
starts_with_slash [] = false
starts_with_slash (ch ∷ rest) = ch == b'/'

abbrev add_byte : ℕ → List Bytes → List Bytes
add_byte ch [] = (ch ∷ []) ∷ []
add_byte ch (first ∷ rest) = (ch ∷ first) ∷ rest

-- The segments between slashes.
abbrev segments : Bytes → List Bytes
segments [] = []
segments (ch ∷ rest) = if ch == b'/' then [] ∷ segments rest else add_byte ch (segments rest)

-- A path library for plain POSIX names.
abbrev pub posix : PathOps
posix = record {
  has_root_name = λ s. false;
  has_root_directory = starts_with_slash;
  has_parent_path = mem_byte b'/';
  is_absolute = starts_with_slash;
  lexically_normal = λ s. s;
  elements = segments;
}

abbrev pub small_message : Message
small_message = record {
  filename = codes "a";
  directory = codes "d/e";
  server_address = codes "h";
  transfer_id = replicate 64 b'0';
  chunk_number = 0;
  total_chunks = 1;
  chunk_offset = 0;
  total_file_size = 1;
  hash = replicate 64 b'f';
  chunk_data = 7 ∷ [];
}

pub small_message-IsAcceptable : IsAcceptable posix small_message
unfolding is_safe_filename is_safe_relative_directory has_control_chars has_any_of has_bad_segment
    is_lower_hex
small_message-IsAcceptable = record {
  safe_filename = refl;
  safe_directory = refl;
  short_address = omega arith;
  id_length = refl;
  id_hex = refl;
  number_fits = omega arith;
  good_counts = (omega arith, inr (omega arith));
  file_not_empty = omega arith;
  file_not_huge = omega arith;
  hash_length = refl;
  hash_hex = refl;
  good_data = (omega arith, omega arith, omega arith);
}

abbrev pub small_packet : Bytes
small_packet = encode small_message

small_packet-bytes : All IsByte small_packet
unfolding uint32_bytes uint64_bytes
small_packet-bytes = all_bytes_sound small_packet refl

abbrev pub stored : ChunkMetadata
stored = store small_message empty_chunk

small_packet-parsed : parse posix small_packet empty_chunk ≡ ok tt (length small_packet) stored
small_packet-parsed =
    (parse_iff posix small_packet empty_chunk stored (length small_packet) small_packet-bytes).1
      (refl, (small_message, small_message-IsAcceptable, refl, refl))

parse_iff_example : (parse posix small_packet empty_chunk ≡ ok tt (length small_packet) stored) ↔ (
    (length small_packet ≡ length small_packet)
    × ((m : Message) × IsAcceptable posix m
        × (small_packet ≡ encode m)
        × (store m empty_chunk ≡ stored)))
parse_iff_example =
    parse_iff posix small_packet empty_chunk stored (length small_packet) small_packet-bytes

parse-filename_confined_example :
    (0 < length stored.filename)
    × (length stored.filename ≤ max_filename_len)
    × All IsPlain stored.filename
    × (stored.filename ≢ codes ".")
    × (stored.filename ≢ codes "..")
parse-filename_confined_example =
    parse-filename_confined posix small_packet empty_chunk stored (length small_packet) refl refl
      small_packet-bytes small_packet-parsed

parse-directory_confined_example :
    (posix.has_root_name stored.directory ≡ false)
    × (posix.has_root_directory stored.directory ≡ false)
    × (posix.is_absolute stored.directory ≡ false)
    × All IsInner (posix.elements stored.directory)
parse-directory_confined_example =
    parse-directory_confined posix small_packet empty_chunk stored (length small_packet)
      small_packet-bytes small_packet-parsed (omega arith)

parse-data_within_file_example :
    (stored.data_size ≡ length stored.chunk_data)
    × (0 < stored.data_size)
    × (stored.data_size ≤ max_chunk_size_bytes)
    × (stored.chunk_offset + stored.data_size ≤ stored.total_file_size)
    × (stored.total_file_size ≤ max_file_size_bytes)
parse-data_within_file_example =
    parse-data_within_file posix small_packet empty_chunk stored (length small_packet)
      small_packet-bytes small_packet-parsed

parse_prefix_free_example : ◌≡◌ {A = Bytes} [] []
unfolding uint32_bytes uint64_bytes
parse_prefix_free_example =
    parse_prefix_free posix small_packet [] empty_chunk stored stored (length small_packet)
      (length small_packet) small_packet-bytes small_packet-bytes small_packet-parsed
      small_packet-parsed

abbrev late_message : Message
late_message = record small_message { chunk_number = 2 ^ 31; total_chunks = 0 }

late_message-IsAcceptable : IsAcceptable posix late_message
late_message-IsAcceptable = record {
  safe_filename = small_message-IsAcceptable.safe_filename;
  safe_directory = small_message-IsAcceptable.safe_directory;
  short_address = omega arith;
  id_length = refl;
  id_hex = small_message-IsAcceptable.id_hex;
  file_not_empty = omega arith;
  file_not_huge = omega arith;
  hash_length = refl;
  hash_hex = small_message-IsAcceptable.hash_hex;
  good_data = (omega arith, omega arith, omega arith);
  number_fits = omega arith;
  good_counts = (omega arith, inl refl);
}

parse-chunk_number_negative_example :
    (late_message.total_chunks ≡ 0)
    × (c' : ChunkMetadata) × (n : ℕ) × (parse posix (encode late_message) empty_chunk
        ≡ ok tt (length (encode late_message)) c')
    × (c'.chunk_number ≡ negsuc n)
parse-chunk_number_negative_example =
    parse-chunk_number_negative posix late_message empty_chunk late_message-IsAcceptable
      (omega arith)

-- A packet with a byte too many is refused before any field is read.
abbrev outcome_error : Outcome (Unit {0}) → Bool
outcome_error (ok u o c) = false
outcome_error (err e c) = true

longer_packet_refused : outcome_error (parse posix (small_packet ++ (0 ∷ [])) empty_chunk) ≡ true
unfolding parse parse_body parse_total_length read_uint32 ensure_available uint32_bytes uint64_bytes
    uint32_of
longer_packet_refused = refl
