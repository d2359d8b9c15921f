-- ===== src/Server/FileReceiver/Stuck.antt =====
-- A finalization that finds the chunks incomplete, and what comes after it (tryReconstructFile and
-- receiveChunk of ServerUDTC++_v3/FileReceiver.cpp).
use transfer_udt.Common.{◌≡◌, refl, true, false, some, arith, ◌==◌}
use transfer_udt.Common.Bytes.{Bytes}
use transfer_udt.ChunkMetadata.{ChunkMetadata}
use transfer_udt.Server.Database.{get_chunks_for_file, get_chunk_row_count, is_file_reconstructed}
use transfer_udt.Server.FileReceiver.{
  ReceiveResult, ChangedFilesServerPolicy, Call, Host, ServerConfig, FileReceiver, Transfer,
  returns,
}
use transfer_udt.Server.FileReceiver.Names.{build_reconstruction_key}
use transfer_udt.Server.FileReceiver.Receive.{
  directory_of, start, select_filename, check_reconstructed, check_partial, check_on_disk,
  check_status,
}
use transfer_udt.Server.FileReceiver.Receive.Store.{check_completion, accept_chunk, receive_chunk}
use transfer_udt.Server.FileReceiver.Finalize.{is_complete, try_reconstruct_file}

module _ (host : Host) (config : ServerConfig) (works : (c : Call) → host.works c ≡ true)
    (policy : config.changed_files_server_policy ≡ ChangedFilesServerPolicy.overwrite) where
  completion_marked :
      (t : Transfer) (s : FileReceiver)
      → is_file_reconstructed t.cl_dir_key t.filename s.database.tables ≡ false
      → (get_chunk_row_count t.cl_dir_key t.filename s.database.tables == 0) ≡ false
      → t.is_first_chunk ≡ true
      → t.replace_reconstructed_file ≡ false
      → s.reconstruction_status t.recon_key ≡ some true
      → check_completion host config t s ≡ returns ReceiveResult.already_completed s
  unfolding check_completion check_reconstructed check_partial check_on_disk check_status
  completion_marked t s a b c d m = ground (
    arith,
    works Call.is_file_reconstructed,
    works Call.get_chunk_row_count,
    works Call.get_active_transfer_id,
    works Call.exists_output,
    a,
    b,
    c,
    d,
    m,
  )

  receive_marked :
      (chunk : ChunkMetadata) (bytes : Bytes) (s : FileReceiver)
      → is_file_reconstructed (directory_of chunk) chunk.filename s.database.tables ≡ false
      → (get_chunk_row_count (directory_of chunk) chunk.filename s.database.tables == 0) ≡ false
      → (start host config chunk).is_first_chunk ≡ true
      → s.reconstruction_status (build_reconstruction_key (directory_of chunk) chunk.filename)
        ≡ some true
      → receive_chunk host config chunk bytes s ≡ returns ReceiveResult.already_completed s
  unfolding receive_chunk select_filename accept_chunk
  receive_marked chunk bytes s a b c m =
      ground (arith, policy, completion_marked (start host config chunk) s a b c refl m)

  -- While the server and its calls work and changed files are overwritten: when the finalization
  -- finds the stored chunks incomplete, the file stays marked, so that the first chunk of every
  -- later transfer of the file is answered by AlreadyCompleted, though the file is not.
  pub incomplete_sticks :
      (chunk : ChunkMetadata) (bytes : Bytes) (s : FileReceiver)
      → is_file_reconstructed (directory_of chunk) chunk.filename s.database.tables ≡ false
      → (get_chunk_row_count (directory_of chunk) chunk.filename s.database.tables == 0) ≡ false
      → (start host config chunk).is_first_chunk ≡ true
      → s.reconstruction_status (build_reconstruction_key (directory_of chunk) chunk.filename)
        ≡ some true
      → is_complete (get_chunks_for_file (directory_of chunk) chunk.filename s.database.tables)
        ≡ false
      → receive_chunk host config chunk bytes (
          try_reconstruct_file host config
            (record { client_address = directory_of chunk; filename = chunk.filename })
            s)
        ≡ returns ReceiveResult.already_completed s
  unfolding try_reconstruct_file
  incomplete_sticks chunk bytes s a b c m n =
      ground (arith, works Call.get_chunks_for_file, n, receive_marked chunk bytes s a b c m)
