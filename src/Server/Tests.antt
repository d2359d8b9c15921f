-- ===== src/Server/Tests.antt =====
-- The theorems on the server's storage (ServerUDTC++_v3), at a receiver that gets the second half of a
-- file of four bytes and cannot write it at once.
use transfer_udt.Common.{
  ℕ, ◌+◌, ◌≤◌, ◌≡◌, ◌⊎◌, refl, Bool, true, false, ◌&&◌, ◌==◌, All, none, some, List, [], ◌∷◌, ◌++◌,
  length, if◌then◌else◌, ltb, arith,
}
use transfer_udt.Common.Int.{pos, int_eq}
use transfer_udt.Common.Bytes.{Bytes, codes}
use transfer_udt.ChunkMetadata.{ChunkMetadata, empty_chunk}
use transfer_udt.ThreadPool.{add_task}
use transfer_udt.Server.Database.Busy.{busy_commit_blocks}
use transfer_udt.Server.Database.Rows.{IsSorted, IsChunkOf, stored-IsChunkOf, chunks_for_file_lem}
use transfer_udt.Server.Database.{
  select, of_stored, Status, ChunkRow, is_some, is_file_reconstructed, get_chunk_row_count,
  get_active_transfer_id, is_chunk_successful, get_chunk_status, insert_chunk, insert_row,
  update_chunk_status, update_rows, get_chunks_for_file, add_reconstructed_file,
  delete_chunks_by_file, begin_transaction, rollback_transaction, Database, Commit,
  commit_transaction,
}
use transfer_udt.Server.FileReceiver.{
  ReceiveResult, ChangedFilesServerPolicy, ended, regular, directory, Attempt, unopened,
  broken_after, written, Host, ServerConfig, Finalization, FileReceiver, Progress, returns, throws,
  continues,
}
use transfer_udt.Server.FileReceiver.Names.{build_reconstruction_key, get_reconstructed_file_path}
use transfer_udt.Server.FileReceiver.Output.{
  calculate_directory_size, sum_sizes, has_client_storage_budget, has_sufficient_disk_space,
  create_output_file, fits_declared, prepare_output_file_for_chunk, write_loop, write_chunk,
}
use transfer_udt.Server.FileReceiver.Receive.{
  directory_of, select_filename, check_reconstructed, check_partial, check_on_disk, check_status,
  verify_hash, check_duplicate,
}
use transfer_udt.Server.FileReceiver.Receive.Store.{
  clear_old, prepare_and_write, write_to_file, update_database, account, check_completion,
  accept_chunk, receive_chunk,
}
use transfer_udt.Server.FileReceiver.Finalize.{is_complete, finalize_rows, try_reconstruct_file}
use transfer_udt.Server.Database.Settled.{IsSettled}
use transfer_udt.Server.FileReceiver.Ready.{IsStored}
use transfer_udt.Server.FileReceiver.Durable.{acknowledged_durable}
use transfer_udt.Server.FileReceiver.Refused.{hash_mismatch_refused}
use transfer_udt.Server.FileReceiver.Completed.{committed, IsFinalized, finalization_atomic}
use transfer_udt.Server.FileReceiver.Sound.{
  IsSound, IsSettledOrLeft, try_reconstruct_file-IsSettledOrLeft,
}
use transfer_udt.Server.FileReceiver.Kept.{receive_chunk-IsSound}
use transfer_udt.Server.FileReceiver.Stuck.{incomplete_sticks}
use transfer_udt.Server.FileReceiver.Budget.{used, prepared_within}

abbrev attempts : ℕ → Attempt
attempts n = if ltb n 2 then unopened else if ltb n 3 then broken_after 1 else written

-- The hash of some bytes is the bytes.
abbrev host : Host
host = record {
  calculate_chunk_hash = λ b. b;
  join = λ a b. a ++ b;
  parent_path = λ p. [];
  to_string = λ n. n ∷ [];
  now_ms = 7;
  works = λ c. true;
  commit = Commit.commits;
  tree = λ p. directory (regular (some 5) ended);
  available = λ p. some 100;
  attempt = attempts;
}

abbrev config : ServerConfig
config = record {
  reconstructed_path = codes "/r";
  max_file_size_bytes = 50;
  max_client_storage_bytes = 60;
  changed_files_server_policy = ChangedFilesServerPolicy.overwrite;
}

abbrev second_half : ChunkMetadata
second_half = record empty_chunk {
  client_address = codes "c";
  directory = codes "d";
  filename = codes "f";
  transfer_id = codes "t";
  chunk_number = pos 1;
  total_chunk = pos 2;
  hash = 8 ∷ 9 ∷ [];
  chunk_offset = 2;
  total_file_size = 4;
}

abbrev row : ℕ → Status → ChunkRow
row n status = record {
  client_address = codes "c/d";
  filename = codes "f";
  chunk_number = pos n;
  total_chunk = pos 2;
  hash = [];
  file_path = [];
  status = status;
  transfer_id = codes "t";
}

abbrev receiver : List ChunkRow → FileReceiver
receiver rows = record {
  database = record {
    tables = record { chunks = rows; reconstructed_files = [] };
    saved = none;
    active = false;
  };
  disk = λ path. none;
  reconstruction_status = λ key. none;
  remaining_chunks = λ key. none;
  versioned_transfer_filenames = λ key. none;
  version_counter = 0;
  thread_pool = record { workers = []; tasks = []; max_pending_tasks = 4; stopped = false };
}

abbrev state_of : Progress → FileReceiver
state_of (returns r s) = s
state_of (throws s) = s
state_of (continues t s) = s

abbrev before : FileReceiver
before = receiver (row 0 Status.success ∷ [])

abbrev after : FileReceiver
after = state_of (receive_chunk host config second_half (8 ∷ 9 ∷ []) before)

no_outputs : (rows : List ChunkRow) → IsSettled (receiver rows).database.tables
unfolding is_file_reconstructed
no_outputs rows client filename e = absurd (ground (arith, e))

settled : IsSettled before.database.tables
settled = no_outputs (row 0 Status.success ∷ [])

receiver-IsSound : (rows : List ChunkRow) → IsSound (receiver rows).database
receiver-IsSound rows = record {
  inactive = refl;
  visible = no_outputs rows;
  durable = no_outputs rows;
}

received :
    receive_chunk host config second_half (8 ∷ 9 ∷ []) before
    ≡ returns ReceiveResult.just_completed after
unfolding receive_chunk accept_chunk check_completion select_filename check_reconstructed
    check_partial check_on_disk check_status verify_hash check_duplicate write_to_file clear_old
    prepare_and_write update_database account is_file_reconstructed get_chunk_row_count
    get_active_transfer_id is_chunk_successful get_chunk_status insert_chunk insert_row
    update_chunk_status update_rows get_chunks_for_file build_reconstruction_key
    get_reconstructed_file_path prepare_output_file_for_chunk fits_declared
    has_client_storage_budget calculate_directory_size sum_sizes has_sufficient_disk_space
    create_output_file write_chunk write_loop add_task
received = refl

acknowledged_durable_example : IsStored host config second_half (8 ∷ 9 ∷ []) before after
acknowledged_durable_example =
    acknowledged_durable host config second_half (8 ∷ 9 ∷ []) before ReceiveResult.just_completed
      after settled refl received refl

abbrev refused_after : FileReceiver
refused_after = state_of (receive_chunk host config second_half (8 ∷ []) before)

refused :
    receive_chunk host config second_half (8 ∷ []) before
    ≡ returns ReceiveResult.failed refused_after
unfolding receive_chunk accept_chunk check_completion select_filename check_reconstructed
    check_partial check_on_disk check_status verify_hash is_file_reconstructed get_chunk_row_count
    get_active_transfer_id build_reconstruction_key get_reconstructed_file_path
refused = refl

hash_mismatch_refused_example :
    ((ReceiveResult.failed ≡ ReceiveResult.failed)
      ⊎ (ReceiveResult.failed ≡ ReceiveResult.already_completed))
    × (refused_after.database ≡ before.database)
    × (refused_after.disk ≡ before.disk)
hash_mismatch_refused_example =
    hash_mismatch_refused host config second_half (8 ∷ []) before (λ e. absurd (ground (arith, e)))
      ReceiveResult.failed refused_after settled refused

abbrev the_file : Finalization
the_file = record { client_address = codes "c/d"; filename = codes "f" }

abbrev both : FileReceiver
both = receiver (row 1 Status.success ∷ row 0 Status.success ∷ [])

finalized_rows : (try_reconstruct_file host config the_file both).database.tables.chunks ≡ []
unfolding try_reconstruct_file is_complete finalize_rows get_chunks_for_file begin_transaction
    commit_transaction add_reconstructed_file delete_chunks_by_file
finalized_rows = refl

finalization_atomic_example :
    (committed (try_reconstruct_file host config the_file both).database ≡ committed both.database)
    ⊎ IsFinalized host config the_file both
        (committed (try_reconstruct_file host config the_file both).database)
finalization_atomic_example = finalization_atomic host config the_file both refl

-- The rows of chunks 0 and 2, while the finalization of the file is under way.
abbrev gap : FileReceiver
gap = record (receiver (row 0 Status.success ∷ row 2 Status.success ∷ [])) {
  reconstruction_status = λ key. some true;
}

abbrev new_first : ChunkMetadata
new_first = record second_half { chunk_number = pos 0; chunk_offset = 0; transfer_id = codes "u" }

gap_incomplete :
    is_complete
      (get_chunks_for_file (directory_of new_first) new_first.filename gap.database.tables)
    ≡ false
unfolding is_complete get_chunks_for_file
gap_incomplete = refl

gap_open :
    is_file_reconstructed (directory_of new_first) new_first.filename gap.database.tables ≡ false
unfolding is_file_reconstructed
gap_open = refl

gap_rows :
    (get_chunk_row_count (directory_of new_first) new_first.filename gap.database.tables == 0)
    ≡ false
unfolding get_chunk_row_count
gap_rows = refl

incomplete_sticks_example :
    receive_chunk host config new_first (8 ∷ 9 ∷ []) (try_reconstruct_file host config the_file gap)
    ≡ returns ReceiveResult.already_completed gap
incomplete_sticks_example =
    incomplete_sticks host config (λ c. refl) refl new_first (8 ∷ 9 ∷ []) gap gap_open gap_rows refl
      refl gap_incomplete

prepared :
    (prepare_output_file_for_chunk host config second_half 2 [] (codes "p") 4 (λ path. none)).0
    ≡ true
unfolding prepare_output_file_for_chunk fits_declared has_client_storage_budget
    calculate_directory_size sum_sizes has_sufficient_disk_space create_output_file
prepared = refl

prepared_within_example :
    (4 ≤ 50)
    × ((second_half.total_file_size ≡ 0)
        ⊎ (second_half.chunk_offset + 2 ≤ second_half.total_file_size))
    × ((is_some {A = Bytes} none ≡ true) ⊎ (used (host.tree (codes "/rc")) + 4 ≤ 60))
prepared_within_example =
    prepared_within host config second_half 2 [] (codes "p") 4 (λ path. none) prepared

-- The successful rows of the file with number 1.
abbrev second_row : ChunkRow → Bool
second_row r = of_stored (codes "c/d") (codes "f") r && int_eq r.chunk_number (pos 1)

second_row-IsChunkOf : (r : ChunkRow) → second_row r ≡ true → IsChunkOf (codes "c/d") (codes "f") r
second_row-IsChunkOf r h = stored-IsChunkOf (codes "c/d") (codes "f") r (ground (arith, h))

chunks_for_file_example :
    IsSorted (get_chunks_for_file (codes "c/d") (codes "f") both.database.tables)
    × All
        (IsChunkOf (codes "c/d") (codes "f"))
        (get_chunks_for_file (codes "c/d") (codes "f") both.database.tables)
    × (length
          (select second_row (get_chunks_for_file (codes "c/d") (codes "f") both.database.tables))
        ≡ length (select second_row both.database.tables.chunks))
chunks_for_file_example =
    chunks_for_file_lem (codes "c/d") (codes "f") both.database.tables second_row
      second_row-IsChunkOf

receive_chunk-IsSound_example : IsSound after.database
receive_chunk-IsSound_example =
    receive_chunk-IsSound host config refl second_half (8 ∷ 9 ∷ []) before after
      ReceiveResult.just_completed (receiver-IsSound (row 0 Status.success ∷ [])) received

try_reconstruct_file-IsSettledOrLeft_example :
    IsSettledOrLeft host config (try_reconstruct_file host config the_file both).database
try_reconstruct_file-IsSettledOrLeft_example =
    try_reconstruct_file-IsSettledOrLeft host config the_file both
      (receiver-IsSound (row 1 Status.success ∷ row 0 Status.success ∷ []))

-- In a transaction that has inserted a row.
abbrev unfinished : Database
unfinished = record {
  tables = (receiver (row 0 Status.success ∷ [])).database.tables;
  saved = some (receiver []).database.tables;
  active = true;
}

busy_commit_blocks_example :
    let e = (rollback_transaction true (commit_transaction Commit.busy unfinished).1).1 in
    (e.tables ≡ unfinished.tables)
    × (begin_transaction e ≡ none)
    × (insert_chunk (row 1 Status.pending) e ≡ none)
    × (update_chunk_status (codes "c/d") (codes "f") (pos 0) Status.success e ≡ none)
busy_commit_blocks_example =
    busy_commit_blocks true unfinished (receiver []).database.tables (row 1 Status.pending)
      (codes "c/d") (codes "f") (pos 0) Status.success refl refl
