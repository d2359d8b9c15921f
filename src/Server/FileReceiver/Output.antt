-- ===== src/Server/FileReceiver/Output.antt =====
-- The budget and the output file of ServerUDTC++_v3/FileReceiver.cpp. `uintmax_t` has 64 bits.
use transfer_udt.Common.{
  ℕ, zero, suc, ◌+◌, ◌-◌, ◌^◌, Bool, true, false, not, ◌&&◌, Option, none, some, [], ◌∷◌, ◌++◌,
  length, take, drop, replicate, ltb, leb, ◌==◌, if◌then◌else◌,
}
use transfer_udt.Common.Bytes.{Bytes}
use transfer_udt.ChunkMetadata.{ChunkMetadata}
use transfer_udt.Server.Database.{is_some}
use transfer_udt.Server.FileReceiver.{
  Call, Listing, ended, broken, unknown_entry, symlink, other, regular, Tree, unreadable, missing,
  not_directory, directory, Attempt, unopened, broken_after, written, Host, ServerConfig, Map, put,
  erase,
}

abbrev pub uintmax_max : ℕ
uintmax_max = 2 ^ 64 - 1

-- The loop of calculateDirectorySize.
unfoldable pub sum_sizes : ℕ → Listing → ℕ
sum_sizes total ended = total
sum_sizes total broken = total
sum_sizes total (unknown_entry rest) = uintmax_max
sum_sizes total (symlink rest) = uintmax_max
sum_sizes total (other rest) = sum_sizes total rest
sum_sizes total (regular none rest) = uintmax_max
sum_sizes total (regular (some file_size) rest) = elim (ltb (uintmax_max - file_size) total) [
  | true ↦ uintmax_max
  | false ↦ sum_sizes (total + file_size) rest
]

unfoldable pub calculate_directory_size : Tree → ℕ
calculate_directory_size unreadable = uintmax_max
calculate_directory_size missing = 0
calculate_directory_size not_directory = uintmax_max
calculate_directory_size (directory listing) = sum_sizes 0 listing

unfoldable pub has_client_storage_budget : Host → ServerConfig → Bytes → ℕ → Bool
has_client_storage_budget host config client_address additional =
    let used =
      calculate_directory_size (host.tree (host.join config.reconstructed_path client_address)) in
    if ltb config.max_client_storage_bytes additional
    then false
    else if used == uintmax_max
    then false
    else leb used (config.max_client_storage_bytes - additional)

abbrev enough : Option ℕ → ℕ → Bool
enough none required = false
enough (some available) required = leb required available

unfoldable pub has_sufficient_disk_space : Host → Bytes → ℕ → Bool
has_sufficient_disk_space host path required = enough (host.available path) required

-- The new file: created empty, then resized; a file that cannot be resized is removed.
unfoldable pub create_output_file : Host → Bytes → ℕ → Map Bytes → Bool × Map Bytes
create_output_file host path size disk =
    if not (host.works Call.create_output)
    then (false, disk)
    else if host.works Call.resize_output
    then (true, put path (replicate size 0) disk)
    else if host.works Call.remove_created
    then (false, erase path disk)
    else (false, put path [] disk)

-- The tests on the sizes that the chunk declares.
unfoldable pub fits_declared : ServerConfig → ChunkMetadata → ℕ → ℕ → Bool
fits_declared config chunk data_size target =
    if ltb config.max_file_size_bytes target
    then false
    else if ltb 0 chunk.total_file_size
    then leb chunk.chunk_offset chunk.total_file_size
      && leb data_size (chunk.total_file_size - chunk.chunk_offset)
    else true

unfoldable pub prepare_output_file_for_chunk :
    Host → ServerConfig → ChunkMetadata → ℕ → Bytes → Bytes → ℕ → Map Bytes → Bool × Map Bytes
prepare_output_file_for_chunk host config chunk data_size folder path target disk =
    let is_new = not (is_some (disk path)) in
    let required = if is_new then target else data_size in
    if not (fits_declared config chunk data_size target)
    then (false, disk)
    else if not (host.works Call.exists_prepared)
    then (false, disk)
    else if is_new && not (has_client_storage_budget host config chunk.client_address target)
    then (false, disk)
    else if not (has_sufficient_disk_space host folder required)
    then (false, disk)
    else if not is_new
    then (true, disk)
    else create_output_file host path target disk

-- seekp and write: a hole before the offset reads as zeros.
abbrev pub write_at : ℕ → Bytes → Bytes → Bytes
write_at offset [] content = content
write_at offset (b ∷ bytes) content =
    take offset (content ++ replicate (offset - length content) 0)
    ++ (b ∷ bytes)
    ++ drop (offset + length (b ∷ bytes)) content

-- One attempt, and the next ones on what it left; the bytes of a failed attempt stay in the file.
abbrev pub after_attempt : ℕ → Bytes → Bytes → (Bytes → Bool × Bytes) → Attempt → Bool × Bytes
after_attempt offset bytes content next unopened = next content
after_attempt offset bytes content next (broken_after n) =
    next (write_at offset (take n bytes) content)
after_attempt offset bytes content next written = (true, write_at offset bytes content)

-- The attempts that are left, from attempt `at` on.
unfoldable pub write_loop : Host → ℕ → Bytes → ℕ → ℕ → Bytes → Bool × Bytes
write_loop host offset bytes zero at content = (false, content)
write_loop host offset bytes (suc left) at content =
    after_attempt offset bytes content (write_loop host offset bytes left (suc at))
      (host.attempt at)

abbrev pub max_write_attempts : ℕ
max_write_attempts = 5

-- The file must exist: it is opened for reading and writing.
abbrev pub write_existing : Host → Bytes → ℕ → Bytes → Option Bytes → Map Bytes → Bool × Map Bytes
write_existing host path offset bytes none disk = (false, disk)
write_existing host path offset bytes (some content) disk =
    let (done, content') = write_loop host offset bytes max_write_attempts 1 content in
    (done, put path content' disk)

unfoldable pub write_chunk : Host → Bytes → ℕ → Bytes → Map Bytes → Bool × Map Bytes
write_chunk host path offset bytes disk = write_existing host path offset bytes (disk path) disk
