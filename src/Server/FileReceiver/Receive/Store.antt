-- ===== src/Server/FileReceiver/Receive/Store.antt =====
-- The rest of receiveChunk (ServerUDTC++_v3/FileReceiver.cpp): the file, the row of the chunk and the
-- completion, and the whole call.
use transfer_udt.Common.{
  ℕ, ◌-◌, Bool, true, false, not, ◌&&◌, ◌||◌, Option, none, some, length, ltb, ◌==◌, if◌then◌else◌,
}
use transfer_udt.Common.Int.{ℤ, pos, negsuc, int_le}
use transfer_udt.Common.Bytes.{Bytes}
use transfer_udt.ChunkMetadata.{ChunkMetadata}
use transfer_udt.ThreadPool.{ThreadPool, Result, ok, err, add_task}
use transfer_udt.Server.Database.{
  Status, ChunkRow, Database, begin_transaction, commit_transaction, rollback_transaction,
  delete_reconstructed_file, delete_chunks_by_file, get_chunk_status, insert_chunk,
  update_chunk_status, get_total_chunk_count, get_chunks_for_file,
}
use transfer_udt.Server.FileReceiver.{
  ReceiveResult, Call, Host, ServerConfig, Map, put, erase, Finalization, FileReceiver, Transfer,
  Progress, returns, throws, continues, and_then,
}
use transfer_udt.Server.FileReceiver.Names.{build_reconstruction_key}
use transfer_udt.Server.FileReceiver.Output.{prepare_output_file_for_chunk, write_chunk}
use transfer_udt.Server.FileReceiver.Receive.{
  directory_of, start, select_filename, check_reconstructed, check_partial, check_on_disk,
  check_status, verify_hash, check_duplicate,
}

-- static_cast<int> of a count of rows, and declared - successful where that is positive.
abbrev pub below_total : ℕ → ℤ → Bool
below_total n (pos total) = ltb n total
below_total n (negsuc m) = false

abbrev pub left_of : ℤ → ℕ → ℤ
left_of (pos total) n = pos (total - n)
left_of (negsuc m) n = negsuc m

abbrev delete_managed : Transfer → Database → Database
delete_managed t d =
    if t.replace_reconstructed_file
    then record d { tables = delete_reconstructed_file t.cl_dir_key t.filename d.tables }
    else d

abbrev delete_rows : Transfer → Database → Database
delete_rows t d = record d { tables = delete_chunks_by_file t.cl_dir_key t.filename d.tables }

-- A statement that throws is followed by ROLLBACK, and whether or not that throws too, by a throw.
abbrev or_rollback : Bool → Bool × Database → Bool × Database
or_rollback fails (true, d) = (true, d)
or_rollback fails (false, d) = (false, (rollback_transaction fails d).1)

abbrev pub target_file_size : ChunkMetadata → Bytes → ℕ
target_file_size chunk bytes =
    if ltb 0 chunk.total_file_size then chunk.total_file_size else length bytes

abbrev pub new_row : Transfer → ChunkRow
new_row t = record {
  client_address = directory_of t.chunk;
  filename = t.chunk.filename;
  chunk_number = t.chunk.chunk_number;
  total_chunk = t.chunk.total_chunk;
  hash = t.chunk.hash;
  file_path = t.reconstructed_file_path;
  status = Status.pending;
  transfer_id = t.chunk.transfer_id;
}

abbrev pub stored_row : Transfer → FileReceiver → Option Database → Progress
stored_row t s none = returns ReceiveResult.failed s
stored_row t s (some d) = continues t (record s { database = d })

abbrev pub file_key : Transfer → Bytes
file_key t = build_reconstruction_key (directory_of t.chunk) t.chunk.filename

-- operator[] on a key that may be missing
abbrev pub is_set : Option Bool → Bool
is_set none = false
is_set (some marked) = marked

abbrev pub enqueued : Bytes → FileReceiver → Result (ThreadPool Finalization) → FileReceiver
enqueued key s (ok pool) = record s {
  thread_pool = pool;
  reconstruction_status = put key true s.reconstruction_status;
}
enqueued key s (err e) = record s { reconstruction_status = erase key s.reconstruction_status }

abbrev pub enqueue_finalization : Bytes → Finalization → FileReceiver → FileReceiver
enqueue_finalization key task s =
    if is_set (s.reconstruction_status key)
    then s
    else enqueued key s (add_task Finalization task s.thread_pool)

abbrev pub finalization_of : Transfer → Finalization
finalization_of t = record { client_address = directory_of t.chunk; filename = t.chunk.filename }

abbrev pub forget_transfer : Bytes → Transfer → FileReceiver → FileReceiver
forget_transfer key t s = record s {
  remaining_chunks = erase key s.remaining_chunks;
  versioned_transfer_filenames =
      if t.versioned_same_path_transfer
      then erase t.original_recon_key s.versioned_transfer_filenames
      else s.versioned_transfer_filenames;
}

abbrev pub count_down : Bytes → ℤ → FileReceiver → FileReceiver
count_down key left s = record s { remaining_chunks = put key left s.remaining_chunks }

abbrev pub complete : Transfer → FileReceiver → FileReceiver
complete t s =
    forget_transfer (file_key t) t (enqueue_finalization (file_key t) (finalization_of t) s)

module _ (host : Host) (config : ServerConfig) where
  -- Between BEGIN and COMMIT; `false` where a statement throws.
  abbrev pub in_transaction : Transfer → Option Database → Database → Bool × Database
  in_transaction t none before = (false, before)
  in_transaction t (some d) before =
      if t.replace_reconstructed_file && not (host.works Call.delete_reconstructed_file)
      then (false, d)
      else if not (host.works Call.delete_chunks_by_file)
      then (false, delete_managed t d)
      else commit_transaction host.commit (delete_rows t (delete_managed t d))

  abbrev pub clear_rows : Transfer → Database → Bool × Database
  clear_rows t d =
      or_rollback (not (host.works Call.rollback_transaction)) (
        in_transaction t (if host.works Call.begin_transaction then begin_transaction d else none)
          d)

  -- Once the rows are deleted, the file goes too.
  abbrev pub after_clear : Transfer → FileReceiver → Bool × Database → Progress
  after_clear t s (false, d) = returns ReceiveResult.failed (record s { database = d })
  after_clear t s (true, d) =
      let status = erase t.recon_key s.reconstruction_status in
      if host.works Call.remove_replaced
      then continues t (record s {
        database = d;
        reconstruction_status = status;
        disk = erase t.reconstructed_file_path s.disk;
      })
      else returns ReceiveResult.failed (record s { database = d; reconstruction_status = status })

  unfoldable pub clear_old : Transfer → FileReceiver → Progress
  clear_old t s =
      if t.replace_reconstructed_file || t.reset_partial_transfer
      then after_clear t s (clear_rows t s.database)
      else continues t s

  abbrev pub after_write : Transfer → FileReceiver → Bool × Map Bytes → Progress
  after_write t s (true, disk) = continues t (record s { disk = disk })
  after_write t s (false, disk) = returns ReceiveResult.failed (record s { disk = disk })

  abbrev pub after_prepare : Bytes → Transfer → FileReceiver → Bool × Map Bytes → Progress
  after_prepare bytes t s (true, disk) =
      after_write t (record s { disk = disk })
        (write_chunk host t.reconstructed_file_path t.chunk.chunk_offset bytes disk)
  after_prepare bytes t s (false, disk) = returns ReceiveResult.failed (record s { disk = disk })

  unfoldable pub prepare_and_write : Bytes → Transfer → FileReceiver → Progress
  prepare_and_write bytes t s = after_prepare bytes t s (
      prepare_output_file_for_chunk host config t.chunk (length bytes)
        (host.parent_path t.reconstructed_file_path) t.reconstructed_file_path
        (target_file_size t.chunk bytes) s.disk)

  unfoldable pub write_to_file : Bytes → Transfer → FileReceiver → Progress
  write_to_file bytes t s = and_then (clear_old t s) (prepare_and_write bytes)

  abbrev pub mark_success : Transfer → FileReceiver → Progress
  mark_success t s =
      if not (host.works Call.update_chunk_status)
      then returns ReceiveResult.failed s
      else stored_row t s (
          update_chunk_status (directory_of t.chunk) t.chunk.filename t.chunk.chunk_number
            Status.success s.database)

  abbrev pub insert_then_mark : Transfer → FileReceiver → Progress
  insert_then_mark t s =
      if not (host.works Call.insert_chunk)
      then returns ReceiveResult.failed s
      else and_then (stored_row t s (insert_chunk (new_row t) s.database)) mark_success

  unfoldable pub update_database : Transfer → FileReceiver → Progress
  update_database t s =
      let rows =
        get_chunk_status (directory_of t.chunk) t.chunk.filename t.chunk.chunk_number
          s.database.tables in
      if t.chunk_known_in_db
      then mark_success t s
      else if not (host.works Call.get_chunk_status_again)
      then returns ReceiveResult.failed s
      else if rows == 0
      then insert_then_mark t s
      else mark_success t s

  abbrev pub count_stored : ℤ → Transfer → FileReceiver → Progress
  count_stored declared t s =
      let successful =
        length (get_chunks_for_file (directory_of t.chunk) t.chunk.filename s.database.tables) in
      if not (host.works Call.get_chunks_for_file)
      then throws s
      else if below_total successful declared
      then returns ReceiveResult.stored (count_down (file_key t) (left_of declared successful) s)
      else returns ReceiveResult.just_completed (complete t s)

  unfoldable pub account : Transfer → FileReceiver → Progress
  account t s =
      let total = get_total_chunk_count (directory_of t.chunk) t.chunk.filename s.database.tables in
      if not (int_le t.chunk.total_chunk (pos 0))
      then count_stored t.chunk.total_chunk t s
      else if not (host.works Call.get_total_chunk_count)
      then throws s
      else if int_le total (pos 0)
      then returns ReceiveResult.stored s
      else count_stored total t s

  unfoldable pub check_completion : Transfer → FileReceiver → Progress
  check_completion t s =
      and_then
        (and_then (and_then (check_reconstructed host config t s) (check_partial host config))
          (check_on_disk host config))
        check_status

  unfoldable pub accept_chunk : Bytes → Transfer → FileReceiver → Progress
  accept_chunk bytes t s =
      and_then
        (and_then (and_then (check_completion t s) (verify_hash host config bytes))
          (check_duplicate host config))
        (write_to_file bytes)

  unfoldable pub receive_chunk : ChunkMetadata → Bytes → FileReceiver → Progress
  receive_chunk chunk bytes s =
      and_then
        (and_then
          (and_then (select_filename host config (start host config chunk) s) (accept_chunk bytes))
          update_database)
        account
