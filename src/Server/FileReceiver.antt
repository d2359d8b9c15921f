-- ===== src/Server/FileReceiver.antt =====
-- The state of ServerUDTC++_v3/FileReceiver.cpp, its environment and the outcome of a call. One call
-- at a time is modelled; logging and the delays between attempts are left out. A path is a byte
-- string, and the spelling that normalizePathForFs gives it on Windows names the same file.
use transfer_udt.Common.{
  ℕ, Bool, true, false, Option, none, some, List, [], ◌∷◌, ◌++◌, if◌then◌else◌,
}
use transfer_udt.Common.Int.{ℤ}
use transfer_udt.Common.Bytes.{Bytes, bytes_eq}
use transfer_udt.ChunkMetadata.{ChunkMetadata}
use transfer_udt.ThreadPool.{ThreadPool}
use transfer_udt.Server.Database.{Database, Commit}
pub mod Names
pub mod Output
pub mod Receive
pub mod Finalize
mod Written
pub mod Checked
pub mod Ready
pub mod Placed
pub mod Recorded
pub mod Durable
pub mod Refused
pub mod Sound
pub mod Preserved
pub mod Freed
pub mod Kept
pub mod Budget
pub mod Stuck
pub mod Completed

pub data ReceiveResult : Type 0 where
  stored already_completed failed just_completed : ReceiveResult

pub data ChangedFilesServerPolicy : Type 0 where
  overwrite reject versioned : ChangedFilesServerPolicy

-- The calls that can throw or fail.
pub data Call : Type 0 where
  is_file_reconstructed get_reconstructed_transfer_id get_chunk_row_count get_active_transfer_id :
      Call
  exists_output ensure_directory is_chunk_successful get_chunk_status : Call
  begin_transaction rollback_transaction calculate_chunk_hash : Call
  delete_reconstructed_file delete_chunks_by_file : Call
  remove_replaced exists_prepared create_output resize_output remove_created : Call
  get_chunk_status_again insert_chunk update_chunk_status : Call
  get_total_chunk_count get_chunks_for_file get_in_progress_file_counters add_reconstructed_file :
      Call

-- What recursive_directory_iterator yields: an entry whose status is unknown, a link, a regular file
-- and its size if that can be read, or another file; `broken` is an error of the iteration, after
-- which the iterator is the end iterator too.
pub data Listing : Type 0 where
  ended broken : Listing
  unknown_entry symlink other : Listing → Listing
  regular : Option ℕ → Listing → Listing

pub data Tree : Type 0 where
  unreadable missing not_directory : Tree
  directory : Listing → Tree

-- An attempt to write a chunk: the file does not open, only the first bytes arrive and the stream
-- fails, or all is written and closed.
pub data Attempt : Type 0 where
  unopened : Attempt
  broken_after : ℕ → Attempt
  written : Attempt

-- The hash function, the path library, std::to_string, and what the system does during the call.
pub record Host : Type 0 where
  pub calculate_chunk_hash : Bytes → Bytes
  pub join : Bytes → Bytes → Bytes
  pub parent_path : Bytes → Bytes
  pub to_string : ℕ → Bytes
  pub now_ms : ℕ
  pub works : Call → Bool
  pub commit : Commit
  pub tree : Bytes → Tree
  pub available : Bytes → Option ℕ
  pub attempt : ℕ → Attempt

pub record ServerConfig : Type 0 where
  pub reconstructed_path : Bytes
  pub max_file_size_bytes : ℕ
  pub max_client_storage_bytes : ℕ
  pub changed_files_server_policy : ChangedFilesServerPolicy

-- std::unordered_map<std::string, A>, and the files on disk by their paths.
abbrev pub Map : Type 0 → Type 0
Map A = Bytes → Option A

abbrev pub put : {A : Type 0} → Bytes → A → Map A → Map A
put key a m k = if bytes_eq k key then some a else m k

abbrev pub erase : {A : Type 0} → Bytes → Map A → Map A
erase key m k = if bytes_eq k key then none else m k

-- A task of the pool: tryReconstructFile with its two arguments.
pub record Finalization : Type 0 where
  pub client_address : Bytes
  pub filename : Bytes

pub record FileReceiver : Type 0 where
  pub database : Database
  pub disk : Map Bytes
  pub reconstruction_status : Map Bool
  pub remaining_chunks : Map ℤ
  pub versioned_transfer_filenames : Map Bytes
  pub version_counter : ℕ
  pub thread_pool : ThreadPool Finalization

-- The local variables of receiveChunk.
pub record Transfer : Type 0 where
  pub chunk : ChunkMetadata
  pub filename : Bytes
  pub cl_dir_key : Bytes
  pub original_filename : Bytes
  pub original_recon_key : Bytes
  pub is_first_chunk : Bool
  pub recon_key : Bytes
  pub reconstructed_file_path : Bytes
  pub replace_reconstructed_file : Bool
  pub reset_partial_transfer : Bool
  pub versioned_same_path_transfer : Bool
  pub chunk_known_in_db : Bool

-- Where a part of receiveChunk leaves it: returned, ended by an exception, or going on.
pub data Progress : Type 0 where
  returns : ReceiveResult → FileReceiver → Progress
  throws : FileReceiver → Progress
  continues : Transfer → FileReceiver → Progress

abbrev pub and_then : Progress → (Transfer → FileReceiver → Progress) → Progress
and_then (returns r s) next = returns r s
and_then (throws s) next = throws s
and_then (continues t s) next = next t s
