-- ===== src/ChunkPacketParser/Reads.antt =====
-- ReadUint32, ReadUint64 and EnsureAvailable of TransferCore/ChunkPacketParser.cpp, and the state
-- that Parse threads: the offset and the chunk that it fills.
use transfer_udt.Common.{ℕ, ◌+◌, ◌-◌, ◌*◌, ◌^◌, Bool, true, false, ◌||◌, ltb, length}
use transfer_udt.Common.Bytes.{Bytes, slice, uint32_of}
use transfer_udt.ChunkMetadata.{ChunkMetadata}

pub data Field : Type 0 where
  total_length filename_len filename directory_len directory server_address_len server_address :
      Field
  transfer_id_len transfer_id chunk_number total_chunks chunk_offset total_file_size : Field
  hash_len hash data_len chunk_data : Field

-- The messages of SetError; `truncated f` is "Buffer too small while reading f".
pub data ParseError : Type 0 where
  too_small_for_total_length total_length_exceeds_maximum size_mismatch : ParseError
  truncated : Field → ParseError
  invalid_filename_length unsafe_filename invalid_directory_length unsafe_directory : ParseError
  invalid_server_address_length invalid_transfer_id_length invalid_transfer_id_format : ParseError
  too_many_chunks chunk_number_out_of_range invalid_total_file_size : ParseError
  invalid_hash_length invalid_hash_format invalid_chunk_data_size : ParseError
  range_exceeds_file unexpected_trailing_bytes : ParseError

-- The value, the offset and the chunk; or the error and the chunk as it was left.
pub data Outcome (A : Type 0) : Type 0 where
  ok : A → ℕ → ChunkMetadata → Outcome A
  err : ParseError → ChunkMetadata → Outcome A

abbrev pub M : Type 0 → Type 0
M A = ℕ → ChunkMetadata → Outcome A

abbrev pub then_with : {A B : Type 0} → Outcome A → (A → M B) → Outcome B
then_with (ok a o c) f = f a o c
then_with (err e c) f = err e c

infixl 5 ◌>>=◌ ◌>>◌
abbrev pub ◌>>=◌ : {A B : Type 0} → M A → (A → M B) → M B
◌>>=◌ m f o c = then_with (m o c) f

abbrev pub ◌>>◌ : {B : Type 0} → M (Unit {0}) → M B → M B
m >> k = m >>= λ _. k

-- `if (b) { SetError(…); return false; }`
abbrev pub reject_if : Bool → ParseError → M (Unit {0})
reject_if true e o c = err e c
reject_if false e o c = ok tt o c

abbrev pub modify : (ChunkMetadata → ChunkMetadata) → M (Unit {0})
modify f o c = ok tt o (f c)

abbrev pub get_offset : M ℕ
get_offset o c = ok o o c

abbrev pub advance : ℕ → M (Unit {0})
advance n o c = ok tt (o + n) c

module _ (buffer : Bytes) where
  unfoldable pub ensure_available : Field → ℕ → M (Unit {0})
  ensure_available field n o c =
      reject_if (ltb (length buffer) o || ltb (length buffer - o) n) (ParseError.truncated field) o
        c

  unfoldable pub read_uint32 : Field → M ℕ
  unfolding ensure_available
  read_uint32 field = do
    ensure_available field 4
    offset ← get_offset
    advance 4
    λ o c. ok (uint32_of (slice offset 4 buffer)) o c

  unfoldable pub read_uint64 : Field → M ℕ
  unfolding ensure_available
  read_uint64 field = do
    ensure_available field 8
    offset ← get_offset
    advance 8
    λ o c.
        ok (uint32_of (slice offset 4 buffer) * 2 ^ 32 + uint32_of (slice (offset + 4) 4 buffer)) o
          c

  -- EnsureAvailable and the construction from `buffer.data() + offset`. Parse moves its local offset
  -- on after it has tested the string; here it moves at once.
  unfoldable pub read_string : Field → ℕ → M Bytes
  unfolding ensure_available
  read_string field n = do
    ensure_available field n
    offset ← get_offset
    advance n
    λ o c. ok (slice offset n buffer) o c
