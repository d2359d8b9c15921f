-- ===== src/Server/FileReceiver/Freed.antt =====
-- The writes of receiveChunk and a sound database (ServerUDTC++_v3/FileReceiver.cpp).
use transfer_udt.Common.{
  ◌≡◌, refl, ap, ◌∙◌, Bool, true, false, not, ◌||◌, length, if◌then◌else◌, arith,
}
use transfer_udt.Common.Bytes.{Bytes}
use transfer_udt.Server.Database.{
  Tables, Database, delete_reconstructed_file, delete_chunks_by_file, is_file_reconstructed,
}
use transfer_udt.Server.Database.Settled.{
  IsSettled, delete_chunks-IsSettled, delete_reconstructed-IsSettled, not_reconstructed,
}
use transfer_udt.Server.FileReceiver.{
  ReceiveResult, Host, ServerConfig, Map, erase, FileReceiver, Transfer,
}
use transfer_udt.Server.FileReceiver.Receive.{is_versioned}
use transfer_udt.Server.FileReceiver.Receive.Store.{
  clear_rows, after_clear, clear_old, after_write, after_prepare, target_file_size,
  prepare_and_write, write_to_file,
}
use transfer_udt.Server.FileReceiver.Output.{prepare_output_file_for_chunk, write_chunk}
use transfer_udt.Server.FileReceiver.Checked.{Ends, and_then-Ends}
use transfer_udt.Server.FileReceiver.Sound.{
  IsSound, moved-IsSound, without_output, cleared_tables, clear_rows-IsMoved, clear_rows_lem,
}
use transfer_udt.Server.FileReceiver.Preserved.{Sound, IsOpen, IsFree}

module _ (host : Host) (config : ServerConfig)
    (fixed : is_versioned config.changed_files_server_policy ≡ false) where
  abbrev Good : ReceiveResult → FileReceiver → Type 0
  Good = Sound host config fixed

  abbrev Open : Transfer → FileReceiver → Type 0
  Open = IsOpen host config fixed

  abbrev Free : Transfer → FileReceiver → Type 0
  Free = IsFree host config fixed

  without-IsSettled :
      (t : Transfer) (tables : Tables)
      → IsSettled tables
      → IsSettled (without_output host config t tables)
  without-IsSettled t tables h = here t.replace_reconstructed_file
    where
      here :
          (b : Bool)
          → IsSettled
              (if b then delete_reconstructed_file t.cl_dir_key t.filename tables else tables)
      here true = delete_reconstructed-IsSettled t.cl_dir_key t.filename tables h
      here false = h

  -- The rows that clear_rows deletes.
  cleared-IsSettled :
      (t : Transfer) (tables : Tables)
      → IsSettled tables
      → IsSettled (cleared_tables host config t tables)
  cleared-IsSettled t tables h =
      delete_chunks-IsSettled t.cl_dir_key t.filename (without_output host config t tables)
        (without-IsSettled t tables h)

  cleared-IsSound :
      (t : Transfer) (d : Database) → IsSound d → IsSound (clear_rows host config t d).1
  cleared-IsSound t d h =
      moved-IsSound d (without_output host config t d.tables)
        (cleared_tables host config t d.tables) (clear_rows host config t d).1
        (clear_rows-IsMoved host config t d h.inactive) (without-IsSettled t d.tables h.visible)
        (cleared-IsSettled t d.tables h.visible) h

  cleared_free :
      (t : Transfer) (tables : Tables)
      → (t.replace_reconstructed_file || not (is_file_reconstructed t.cl_dir_key t.filename tables))
        ≡ true
      → is_file_reconstructed t.cl_dir_key t.filename (cleared_tables host config t tables) ≡ false
  unfolding is_file_reconstructed delete_chunks_by_file
  cleared_free t tables h = ground (arith, h, not_reconstructed t.cl_dir_key t.filename tables)

  after_clear-IsFree :
      (t : Transfer) (s : FileReceiver) (c : Bool × Database)
      → Open t s
      → IsSound c.1
      → (c.0 ≡ true → is_file_reconstructed t.cl_dir_key t.filename c.1.tables ≡ false)
      → Ends Good Free (after_clear host config t s c)
  unfolding Sound
  after_clear-IsFree t s (false, d) h k e = k
  after_clear-IsFree t s (true, d) h k e = ground (arith, k, free)
    where
      free : Free t (record s {
        database = d;
        reconstruction_status = erase t.recon_key s.reconstruction_status;
        disk = erase t.reconstructed_file_path s.disk;
      })
      free = record {
        named = record {
          same_directory = h.named.same_directory;
          same_filename = h.named.same_filename;
          sound = k;
        };
        free = e refl;
      }

  kept-IsFree :
      (t : Transfer) (s : FileReceiver)
      → Open t s
      → (t.replace_reconstructed_file || t.reset_partial_transfer) ≡ false
      → Free t s
  kept-IsFree t s h e = record { named = h.named; free = ground (arith, h.open_or_replaced, e) }

  clear-IsFree :
      (t : Transfer) (s : FileReceiver) → Open t s → Ends Good Free (clear_old host config t s)
  unfolding clear_old
  clear-IsFree t s h = ground (
    arith,
    kept-IsFree t s h,
    after_clear-IsFree t s (clear_rows host config t s.database) h
        (cleared-IsSound t s.database h.named.sound)
        (λ e.
          ap (is_file_reconstructed t.cl_dir_key t.filename)
            (clear_rows_lem host config t s.database h.named.sound.inactive e)
          ∙ cleared_free t s.database.tables h.open_or_replaced),
  )

  with_disk :
      (t : Transfer) (s : FileReceiver) (disk : Map Bytes)
      → Free t s
      → Free t (record s { disk = disk })
  with_disk t s disk h = record {
    named = record {
      same_directory = h.named.same_directory;
      same_filename = h.named.same_filename;
      sound = h.named.sound;
    };
    free = h.free;
  }

  after_write-IsFree :
      (t : Transfer) (s : FileReceiver) (w : Bool × Map Bytes)
      → Free t s
      → Ends Good Free (after_write host config t s w)
  unfolding Sound
  after_write-IsFree t s (false, disk) h = h.named.sound
  after_write-IsFree t s (true, disk) h = with_disk t s disk h

  after_prepare-IsFree :
      (bytes : Bytes) (t : Transfer) (s : FileReceiver) (p : Bool × Map Bytes)
      → Free t s
      → Ends Good Free (after_prepare host config bytes t s p)
  unfolding Sound
  after_prepare-IsFree bytes t s (false, disk) h = h.named.sound
  after_prepare-IsFree bytes t s (true, disk) h =
      after_write-IsFree t (record s { disk = disk })
        (write_chunk host t.reconstructed_file_path t.chunk.chunk_offset bytes disk)
        (with_disk t s disk h)

  pub write-IsFree :
      (bytes : Bytes) (t : Transfer) (s : FileReceiver)
      → Open t s
      → Ends Good Free (write_to_file host config bytes t s)
  unfolding write_to_file prepare_and_write
  write-IsFree bytes t s h =
      and_then-Ends Good Free Free (prepare_and_write host config bytes) (clear_old host config t s)
        (clear-IsFree t s h)
        (λ t s g.
          after_prepare-IsFree bytes t s
            (prepare_output_file_for_chunk host config t.chunk (length bytes)
              (host.parent_path t.reconstructed_file_path) t.reconstructed_file_path
              (target_file_size t.chunk bytes) s.disk)
            g)
