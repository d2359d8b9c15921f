-- ===== src/Server/FileReceiver/Receive.antt =====
-- receiveChunk (ServerUDTC++_v3/FileReceiver.cpp), part by part. A call of the database that throws
-- within a try block is answered by Failed.
use transfer_udt.Common.{
  ℕ, ◌+◌, ◌-◌, ◌%◌, ◌^◌, Bool, true, false, not, ◌&&◌, ◌||◌, Option, none, some, List, [], ◌∷◌,
  ◌++◌, length, ltb, ◌==◌, if◌then◌else◌,
}
use transfer_udt.Common.Int.{ℤ, pos, int_eq, int_le, int_lt}
use transfer_udt.Common.Bytes.{Bytes, bytes_eq, codes}
use transfer_udt.ChunkMetadata.{ChunkMetadata}
use transfer_udt.Server.Database.{
  Status, ChunkRow, Tables, Database, is_some, is_file_reconstructed, get_reconstructed_transfer_id,
  get_chunk_row_count, get_active_transfer_id, is_chunk_successful, get_chunk_status,
}
use transfer_udt.Server.FileReceiver.{
  ReceiveResult, ChangedFilesServerPolicy, Call, Host, ServerConfig, Map, put, FileReceiver,
  Transfer, Progress, returns, throws, continues, and_then,
}
use transfer_udt.Server.FileReceiver.Names.{
  build_reconstruction_key, build_versioned_filename, get_reconstructed_file_path,
}
pub mod Store

abbrev pub is_versioned : ChangedFilesServerPolicy → Bool
is_versioned ChangedFilesServerPolicy.versioned = true
is_versioned ChangedFilesServerPolicy.overwrite = false
is_versioned ChangedFilesServerPolicy.reject = false

abbrev pub is_reject : ChangedFilesServerPolicy → Bool
is_reject ChangedFilesServerPolicy.reject = true
is_reject ChangedFilesServerPolicy.overwrite = false
is_reject ChangedFilesServerPolicy.versioned = false

abbrev pub directory_of : ChunkMetadata → Bytes
directory_of chunk = chunk.client_address ++ codes "/" ++ chunk.directory

abbrev is_marked : Option Bool → Bool
is_marked none = false
is_marked (some marked) = marked

-- A file whose finalization is under way.
unfoldable pub check_status : Transfer → FileReceiver → Progress
check_status t s =
    if is_marked (s.reconstruction_status t.recon_key) && not t.replace_reconstructed_file
    then returns ReceiveResult.already_completed s
    else continues t s

module _ (host : Host) (config : ServerConfig) where
  abbrev pub refresh_effective_path : Transfer → Transfer
  refresh_effective_path t = record t {
    recon_key = build_reconstruction_key t.cl_dir_key t.filename;
    reconstructed_file_path = get_reconstructed_file_path host config t.cl_dir_key t.filename;
  }

  abbrev pub use_filename : Bytes → Transfer → Transfer
  use_filename name t = refresh_effective_path (record t {
    filename = name;
    chunk = record (t.chunk) { filename = name };
    versioned_same_path_transfer = true;
  })

  -- Its result is the new transfer and the receiver with the new name noted.
  abbrev pub switch_to_versioned_filename : Transfer → FileReceiver → Transfer × FileReceiver
  switch_to_versioned_filename t s =
      let name = build_versioned_filename host s.version_counter t.original_filename in
      (
        use_filename name t,
        record s {
          version_counter = (s.version_counter + 1) % 2 ^ 64;
          versioned_transfer_filenames =
              put t.original_recon_key name s.versioned_transfer_filenames;
        },
      )

  -- The local variables before the lambdas.
  abbrev pub start : ChunkMetadata → Transfer
  start chunk = refresh_effective_path (record {
    chunk = chunk;
    filename = chunk.filename;
    cl_dir_key = directory_of chunk;
    original_filename = chunk.filename;
    original_recon_key = build_reconstruction_key (directory_of chunk) chunk.filename;
    is_first_chunk = int_eq chunk.chunk_number (pos 0) && (chunk.chunk_offset == 0);
    recon_key = [];
    reconstructed_file_path = [];
    replace_reconstructed_file = false;
    reset_partial_transfer = false;
    versioned_same_path_transfer = false;
    chunk_known_in_db = false;
  })

  abbrev pub resume_version : Option Bytes → Transfer → Transfer
  resume_version none t = t
  resume_version (some name) t = use_filename name t

  -- A later chunk of a versioned transfer goes on under its name.
  unfoldable pub select_filename : Transfer → FileReceiver → Progress
  select_filename t s =
      if not t.is_first_chunk && is_versioned config.changed_files_server_policy
      then continues (resume_version (s.versioned_transfer_filenames t.original_recon_key) t) s
      else continues t s

  abbrev pub continue_versioned : Transfer → FileReceiver → Progress
  continue_versioned t s = let (t', s') = switch_to_versioned_filename t s in continues t' s'

  -- A file that is complete: the same transfer again, or a changed one under the policy.
  unfoldable pub check_reconstructed : Transfer → FileReceiver → Progress
  check_reconstructed t s =
      let tables = s.database.tables in
      if not (host.works Call.is_file_reconstructed)
      then returns ReceiveResult.failed s
      else if not (is_file_reconstructed t.cl_dir_key t.filename tables)
      then continues t s
      else if not (host.works Call.get_reconstructed_transfer_id)
      then returns ReceiveResult.failed s
      else if not (bytes_eq t.chunk.transfer_id [])
          && bytes_eq (get_reconstructed_transfer_id t.cl_dir_key t.filename tables)
              t.chunk.transfer_id
      then returns ReceiveResult.already_completed s
      else if not t.is_first_chunk || is_reject config.changed_files_server_policy
      then returns ReceiveResult.already_completed s
      else if is_versioned config.changed_files_server_policy
      then continue_versioned t s
      else continues (record t { replace_reconstructed_file = true }) s

  -- The rows of an interrupted transfer: only the first chunk of another one may replace them.
  unfoldable pub check_partial : Transfer → FileReceiver → Progress
  check_partial t s =
      let tables = s.database.tables in
      if not (host.works Call.get_chunk_row_count)
      then returns ReceiveResult.failed s
      else if (get_chunk_row_count t.cl_dir_key t.filename tables == 0)
          || bytes_eq t.chunk.transfer_id []
      then continues t s
      else if not (host.works Call.get_active_transfer_id)
      then returns ReceiveResult.failed s
      else if bytes_eq (get_active_transfer_id t.cl_dir_key t.filename tables) t.chunk.transfer_id
      then continues t s
      else if t.is_first_chunk
      then continues (record t { reset_partial_transfer = true }) s
      else returns ReceiveResult.failed s

  -- A file on disk with no rows: it was not received by this server.
  unfoldable pub check_on_disk : Transfer → FileReceiver → Progress
  check_on_disk t s =
      let no_rows = get_chunk_row_count t.cl_dir_key t.filename s.database.tables == 0 in
      if not (host.works Call.exists_output)
      then returns ReceiveResult.failed s
      else if not (
          not t.replace_reconstructed_file && no_rows && is_some (s.disk t.reconstructed_file_path))
      then continues t s
      else if t.is_first_chunk && is_versioned config.changed_files_server_policy
      then continue_versioned t s
      else returns ReceiveResult.already_completed s

  unfoldable pub verify_hash : Bytes → Transfer → FileReceiver → Progress
  verify_hash chunk_data t s =
      if not (host.works Call.calculate_chunk_hash)
      then throws s
      else if not (bytes_eq (host.calculate_chunk_hash chunk_data) t.chunk.hash)
      then returns ReceiveResult.failed s
      else if not (host.works Call.ensure_directory)
      then returns ReceiveResult.failed s
      else continues t s

  unfoldable pub check_duplicate : Transfer → FileReceiver → Progress
  check_duplicate t s =
      let directory = directory_of t.chunk in
      let number = t.chunk.chunk_number in
      let tables = s.database.tables in
      if t.reset_partial_transfer
      then continues (record t { chunk_known_in_db = false }) s
      else if not (host.works Call.is_chunk_successful)
      then returns ReceiveResult.failed s
      else if is_chunk_successful directory t.chunk.filename number tables
      then returns ReceiveResult.stored s
      else if not (host.works Call.get_chunk_status)
      then returns ReceiveResult.failed s
      else continues
          (record t {
            chunk_known_in_db =
                not (get_chunk_status directory t.chunk.filename number tables == 0);
          })
          s
