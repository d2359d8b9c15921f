-- ===== src/Server/FileReceiver/Budget.antt =====
-- What a chunk may take of the disk (ServerUDTC++_v3/FileReceiver.cpp).
use transfer_udt.Common.{ℕ, ◌+◌, ◌≤◌, ◌≡◌, ◌≢◌, refl, ◌⊎◌, true, none, some, arith}
use transfer_udt.Common.Bytes.{Bytes}
use transfer_udt.ChunkMetadata.{ChunkMetadata}
use transfer_udt.Server.Database.{is_some}
use transfer_udt.Server.FileReceiver.{
  Listing, ended, broken, unknown_entry, symlink, other, regular, Tree, unreadable, missing,
  not_directory, directory, Host, ServerConfig, Map,
}
use transfer_udt.Server.FileReceiver.Output.{
  uintmax_max, sum_sizes, calculate_directory_size, has_client_storage_budget, fits_declared,
  prepare_output_file_for_chunk,
}

-- The bytes of the regular files that the iteration reaches.
abbrev pub reached : Listing → ℕ
reached ended = 0
reached broken = 0
reached (unknown_entry rest) = reached rest
reached (symlink rest) = reached rest
reached (other rest) = reached rest
reached (regular none rest) = reached rest
reached (regular (some file_size) rest) = file_size + reached rest

-- The loop adds up what it reaches, or ends at the greatest number.
sum_sizes_lem :
    (total : ℕ) (listing : Listing)
    → sum_sizes total listing ≢ uintmax_max
    → sum_sizes total listing ≡ total + reached listing
unfolding sum_sizes
sum_sizes_lem total ended h = omega arith
sum_sizes_lem total broken h = omega arith
sum_sizes_lem total (unknown_entry rest) h = absurd (h refl)
sum_sizes_lem total (symlink rest) h = absurd (h refl)
sum_sizes_lem total (other rest) h = sum_sizes_lem total rest h
sum_sizes_lem total (regular none rest) h = absurd (h refl)
sum_sizes_lem total (regular (some file_size) rest) h =
    ground (arith, sum_sizes_lem (total + file_size) rest)

abbrev pub used : Tree → ℕ
used unreadable = 0
used missing = 0
used not_directory = 0
used (directory listing) = reached listing

directory_size_lem :
    (tree : Tree)
    → calculate_directory_size tree ≢ uintmax_max
    → calculate_directory_size tree ≡ used tree
unfolding calculate_directory_size
directory_size_lem unreadable h = absurd (h refl)
directory_size_lem missing h = refl
directory_size_lem not_directory h = absurd (h refl)
directory_size_lem (directory listing) h = omega (arith, sum_sizes_lem 0 listing h)

budget_lem :
    (host : Host) (config : ServerConfig) (client : Bytes) (additional : ℕ)
    → has_client_storage_budget host config client additional ≡ true
    → used (host.tree (host.join config.reconstructed_path client)) + additional
      ≤ config.max_client_storage_bytes
unfolding has_client_storage_budget
budget_lem host config client additional h =
    ground (arith, h, directory_size_lem (host.tree (host.join config.reconstructed_path client)))

fits_declared_lem :
    (config : ServerConfig) (chunk : ChunkMetadata) (data_size target : ℕ)
    → fits_declared config chunk data_size target ≡ true
    → (target ≤ config.max_file_size_bytes)
      × ((chunk.total_file_size ≡ 0) ⊎ (chunk.chunk_offset + data_size ≤ chunk.total_file_size))
unfolding fits_declared
fits_declared_lem config chunk data_size target h = ground (arith, h)

-- When the output file is made ready for a chunk, its size is within the limit, the bytes lie within
-- the size that the chunk declares, if it does, and the file is there, or fits the client's budget
-- beside the files that are reached.
pub prepared_within :
    (host : Host) (config : ServerConfig) (chunk : ChunkMetadata) (data_size : ℕ)
    (folder path : Bytes) (target : ℕ) (disk : Map Bytes)
    → (prepare_output_file_for_chunk host config chunk data_size folder path target disk).0 ≡ true
    → (target ≤ config.max_file_size_bytes)
      × ((chunk.total_file_size ≡ 0) ⊎ (chunk.chunk_offset + data_size ≤ chunk.total_file_size))
      × ((is_some (disk path) ≡ true)
          ⊎ (used (host.tree (host.join config.reconstructed_path chunk.client_address)) + target
              ≤ config.max_client_storage_bytes))
unfolding prepare_output_file_for_chunk
prepared_within host config chunk data_size folder path target disk e = ground (
  arith,
  e,
  fits_declared_lem config chunk data_size target,
  budget_lem host config chunk.client_address target,
)
