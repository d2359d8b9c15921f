-- ===== src/ChunkMetadata.antt =====
-- TransferCore/ChunkMetadata.h: what is known of one chunk of a file. The conversions between UTF-8
-- and wide strings are the platform's and are not modelled; paths are byte strings.
use transfer_udt.Common.{ℕ, []}
use transfer_udt.Common.{length}
use transfer_udt.Common.Int.{ℤ, pos}
use transfer_udt.Common.Bytes.{Bytes}

pub record ChunkMetadata : Type 0 where
  pub client_address : Bytes
  pub server_address : Bytes
  pub transfer_id : Bytes
  pub filename : Bytes
  pub chunk_number : ℤ
  pub total_chunk : ℤ
  pub hash : Bytes
  pub file_path : Bytes
  pub chunk_data : Bytes
  pub data_size : ℕ
  pub directory : Bytes
  pub chunk_offset : ℕ
  pub total_file_size : ℕ
  pub chunk_size : ℤ
  pub retries : ℤ

-- The default constructor.
abbrev pub empty_chunk : ChunkMetadata
empty_chunk = record {
  client_address = [];
  server_address = [];
  transfer_id = [];
  filename = [];
  chunk_number = pos 0;
  total_chunk = pos 0;
  hash = [];
  file_path = [];
  chunk_data = [];
  data_size = 0;
  directory = [];
  chunk_offset = 0;
  total_file_size = 0;
  chunk_size = pos 0;
  retries = pos 0;
}

-- setData keeps the size beside the bytes.
abbrev pub set_data : Bytes → ChunkMetadata → ChunkMetadata
set_data bytes c = record c { chunk_data = bytes; data_size = length bytes }
