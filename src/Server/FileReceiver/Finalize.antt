-- ===== src/Server/FileReceiver/Finalize.antt =====
-- The finalization of a received file and the recovery at start
-- (ServerUDTC++_v3/FileReceiver.cpp).
use transfer_udt.Common.{
  ℕ, suc, Bool, true, false, not, ◌&&◌, Option, none, some, List, [], ◌∷◌, length, ◌==◌,
  if◌then◌else◌,
}
use transfer_udt.Common.Int.{ℤ, pos, int_eq, int_le, int_max}
use transfer_udt.Common.Bytes.{Bytes}
use transfer_udt.ThreadPool.{ThreadPool, Result, ok, err, add_task}
use transfer_udt.Server.Database.{
  ChunkRow, ReconstructedRow, Database, InProgressFileInfo, begin_transaction, commit_transaction,
  rollback_transaction, add_reconstructed_file, delete_chunks_by_file, get_chunks_for_file,
  get_in_progress_file_counters,
}
use transfer_udt.Server.FileReceiver.{
  Call, Host, ServerConfig, put, erase, Finalization, FileReceiver,
}
use transfer_udt.Server.FileReceiver.Names.{build_reconstruction_key, get_reconstructed_file_path}
use transfer_udt.Server.FileReceiver.Receive.Store.{below_total, left_of, is_set}

-- The greatest total that a stored chunk declares, at least 0.
abbrev pub expected_total : List ChunkRow → ℤ
expected_total [] = pos 0
expected_total (r ∷ rest) = int_max r.total_chunk (expected_total rest)

-- chunks[i].getChunkNumber() == i, from i on
abbrev pub in_sequence : ℕ → List ChunkRow → Bool
in_sequence i [] = true
in_sequence i (r ∷ rest) = int_eq r.chunk_number (pos i) && in_sequence (suc i) rest

abbrev pub id_of_first : List ChunkRow → Bytes
id_of_first [] = []
id_of_first (r ∷ rest) = r.transfer_id

-- What the checks of the stored chunks say.
unfoldable pub is_complete : List ChunkRow → Bool
is_complete chunks =
    let total = expected_total chunks in
    if length chunks == 0
    then false
    else if int_le total (pos 0)
    then false
    else int_eq (pos (length chunks)) total && in_sequence 0 chunks

module _ (host : Host) (config : ServerConfig) where
  abbrev pub managed_row : Finalization → List ChunkRow → ReconstructedRow
  managed_row f chunks = record {
    client_address = f.client_address;
    filename = f.filename;
    reconstructed_path = get_reconstructed_file_path host config f.client_address f.filename;
    transfer_id = id_of_first chunks;
  }

  abbrev add_managed : Finalization → List ChunkRow → Database → Database
  add_managed f chunks d = record d {
    tables = add_reconstructed_file (managed_row f chunks) d.tables;
  }

  abbrev delete_rows : Finalization → Database → Database
  delete_rows f d = record d { tables = delete_chunks_by_file f.client_address f.filename d.tables }

  abbrev in_transaction :
      Finalization → List ChunkRow → Option Database → Database → Bool × Database
  in_transaction f chunks none before = (false, before)
  in_transaction f chunks (some d) before =
      if not (host.works Call.add_reconstructed_file)
      then (false, d)
      else if not (host.works Call.delete_chunks_by_file)
      then (false, add_managed f chunks d)
      else commit_transaction host.commit (delete_rows f (add_managed f chunks d))

  -- The handler; `false` where its ROLLBACK throws.
  abbrev or_rollback : Bool × Database → Bool × Database
  or_rollback (true, d) = (true, d)
  or_rollback (false, d) = rollback_transaction (not (host.works Call.rollback_transaction)) d

  unfoldable pub finalize_rows : Finalization → List ChunkRow → Database → Bool × Database
  finalize_rows f chunks d = or_rollback (
      in_transaction f chunks
        (if host.works Call.begin_transaction then begin_transaction d else none) d)

  abbrev clear_status : Finalization → FileReceiver → FileReceiver
  clear_status f s = record s {
    reconstruction_status =
        erase (build_reconstruction_key f.client_address f.filename) s.reconstruction_status;
  }

  -- A ROLLBACK that throws leaves the function before the status is cleared.
  abbrev pub after_rows : Finalization → FileReceiver → Bool × Database → FileReceiver
  after_rows f s (true, d) = clear_status f (record s { database = d })
  after_rows f s (false, d) = record s { database = d }

  -- A read that throws still clears the status; chunks that are not complete return before that.
  unfoldable pub try_reconstruct_file : Finalization → FileReceiver → FileReceiver
  try_reconstruct_file f s =
      let chunks = get_chunks_for_file f.client_address f.filename s.database.tables in
      if not (host.works Call.get_chunks_for_file)
      then clear_status f s
      else if is_complete chunks
      then after_rows f s (finalize_rows f chunks s.database)
      else s

  abbrev recovered :
      InProgressFileInfo → FileReceiver → Result (ThreadPool Finalization) → FileReceiver
  recovered info s (ok pool) = record s {
    thread_pool = pool;
    reconstruction_status =
        put (build_reconstruction_key info.client_address info.filename) true
          s.reconstruction_status;
  }
  recovered info s (err e) = record s {
    reconstruction_status =
        put (build_reconstruction_key info.client_address info.filename) true
          s.reconstruction_status;
  }

  abbrev enqueue_recovered : InProgressFileInfo → FileReceiver → FileReceiver
  enqueue_recovered info s =
      if is_set
        (s.reconstruction_status (build_reconstruction_key info.client_address info.filename))
      then s
      else recovered info s (
          add_task Finalization
            (record { client_address = info.client_address; filename = info.filename })
            s.thread_pool)

  -- One file: its total unknown, chunks missing, or all there and only the finalization missing. Here
  -- the status stays set when the pool refuses the task.
  abbrev pub load_counter : InProgressFileInfo → FileReceiver → FileReceiver
  load_counter info s =
      let key = build_reconstruction_key info.client_address info.filename in
      if int_le info.total_chunks (pos 0)
      then s
      else if below_total info.successful_count info.total_chunks
      then record s {
        remaining_chunks =
            put key (left_of info.total_chunks info.successful_count) s.remaining_chunks;
      }
      else enqueue_recovered info s

  abbrev load_counters : List InProgressFileInfo → FileReceiver → FileReceiver
  load_counters [] s = s
  load_counters (info ∷ rest) s = load_counters rest (load_counter info s)

  unfoldable pub load_pending_counters : FileReceiver → FileReceiver
  load_pending_counters s =
      if host.works Call.get_in_progress_file_counters
      then load_counters (get_in_progress_file_counters s.database.tables) s
      else s
