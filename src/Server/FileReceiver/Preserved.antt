-- ===== src/Server/FileReceiver/Preserved.antt =====
-- The checks of receiveChunk and a sound database (ServerUDTC++_v3/FileReceiver.cpp).
use transfer_udt.Common.{◌≡◌, refl, Bool, true, false, not, ◌||◌, arith}
use transfer_udt.Common.Bytes.{Bytes}
use transfer_udt.ChunkMetadata.{ChunkMetadata}
use transfer_udt.Server.Database.{is_file_reconstructed}
use transfer_udt.Server.FileReceiver.{ReceiveResult, Host, ServerConfig, FileReceiver, Transfer}
use transfer_udt.Server.FileReceiver.Receive.{
  directory_of, is_versioned, start, select_filename, check_reconstructed, check_partial,
  check_on_disk, check_status, verify_hash, check_duplicate,
}
use transfer_udt.Server.FileReceiver.Checked.{Ends}
use transfer_udt.Server.FileReceiver.Sound.{IsSound}

module _ (host : Host) (config : ServerConfig)
    (fixed : is_versioned config.changed_files_server_policy ≡ false) where
  unfoldable pub Sound : ReceiveResult → FileReceiver → Type 0
  Sound r s = IsSound s.database

  -- The names agree and the database is sound.
  pub record IsNamed (t : Transfer) (s : FileReceiver) : Type 0 where
    pub same_directory : directory_of t.chunk ≡ t.cl_dir_key
    pub same_filename : t.chunk.filename ≡ t.filename
    pub sound : IsSound s.database

  -- The file is not completed, or it is to be replaced.
  pub record IsOpen (t : Transfer) (s : FileReceiver) : Type 0 where
    pub named : IsNamed t s
    pub open_or_replaced :
        (t.replace_reconstructed_file
          || not (is_file_reconstructed t.cl_dir_key t.filename s.database.tables))
        ≡ true

  -- The file is not completed.
  pub record IsFree (t : Transfer) (s : FileReceiver) : Type 0 where
    pub named : IsNamed t s
    pub free : is_file_reconstructed t.cl_dir_key t.filename s.database.tables ≡ false

  pub returned : (t : Transfer) (s : FileReceiver) (r : ReceiveResult) → IsNamed t s → Sound r s
  unfolding Sound
  returned t s r h = h.sound

  pub start-IsNamed :
      (chunk : ChunkMetadata) (s : FileReceiver)
      → IsSound s.database
      → IsNamed (start host config chunk) s
  start-IsNamed chunk s h = record { same_directory = refl; same_filename = refl; sound = h }

  pub select-IsNamed :
      (t : Transfer) (s : FileReceiver)
      → IsNamed t s
      → Ends Sound IsNamed (select_filename host config t s)
  unfolding select_filename
  select-IsNamed t s h = ground (arith, fixed, h)

  opened :
      (t : Transfer) (s : FileReceiver)
      → IsNamed t s
      → is_file_reconstructed t.cl_dir_key t.filename s.database.tables ≡ false
      → IsOpen t s
  opened t s h e = record { named = h; open_or_replaced = ground (arith, e) }

  replaced :
      (t : Transfer) (s : FileReceiver)
      → IsNamed t s
      → IsOpen (record t { replace_reconstructed_file = true }) s
  replaced t s h = record {
    named = record {
      same_directory = h.same_directory;
      same_filename = h.same_filename;
      sound = h.sound;
    };
    open_or_replaced = refl;
  }

  reset_keeps :
      (t : Transfer) (s : FileReceiver)
      → IsOpen t s
      → IsOpen (record t { reset_partial_transfer = true }) s
  reset_keeps t s h = record {
    named = record {
      same_directory = h.named.same_directory;
      same_filename = h.named.same_filename;
      sound = h.named.sound;
    };
    open_or_replaced = h.open_or_replaced;
  }

  known :
      (t : Transfer) (s : FileReceiver) (b : Bool)
      → IsOpen t s
      → IsOpen (record t { chunk_known_in_db = b }) s
  known t s b h = record {
    named = record {
      same_directory = h.named.same_directory;
      same_filename = h.named.same_filename;
      sound = h.named.sound;
    };
    open_or_replaced = h.open_or_replaced;
  }

  pub reconstructed-IsOpen :
      (t : Transfer) (s : FileReceiver)
      → IsNamed t s
      → Ends Sound IsOpen (check_reconstructed host config t s)
  unfolding check_reconstructed
  reconstructed-IsOpen t s h = ground (
    arith,
    fixed,
    returned t s ReceiveResult.failed h,
    returned t s ReceiveResult.already_completed h,
    opened t s h,
    replaced t s h,
  )

  pub partial-IsOpen :
      (t : Transfer) (s : FileReceiver)
      → IsOpen t s
      → Ends Sound IsOpen (check_partial host config t s)
  unfolding check_partial
  partial-IsOpen t s h =
      ground (arith, returned t s ReceiveResult.failed h.named, reset_keeps t s h, h)

  pub on_disk-IsOpen :
      (t : Transfer) (s : FileReceiver)
      → IsOpen t s
      → Ends Sound IsOpen (check_on_disk host config t s)
  unfolding check_on_disk
  on_disk-IsOpen t s h = ground (
    arith,
    fixed,
    returned t s ReceiveResult.failed h.named,
    returned t s ReceiveResult.already_completed h.named,
    h,
  )

  pub status-IsOpen :
      (t : Transfer) (s : FileReceiver) → IsOpen t s → Ends Sound IsOpen (check_status t s)
  unfolding check_status
  status-IsOpen t s h = ground (arith, returned t s ReceiveResult.already_completed h.named, h)

  pub hash-IsOpen :
      (bytes : Bytes) (t : Transfer) (s : FileReceiver)
      → IsOpen t s
      → Ends Sound IsOpen (verify_hash host config bytes t s)
  unfolding verify_hash
  hash-IsOpen bytes t s h = ground (arith, returned t s ReceiveResult.failed h.named, h)

  pub duplicate-IsOpen :
      (t : Transfer) (s : FileReceiver)
      → IsOpen t s
      → Ends Sound IsOpen (check_duplicate host config t s)
  unfolding check_duplicate
  duplicate-IsOpen t s h = ground (
    arith,
    returned t s ReceiveResult.failed h.named,
    returned t s ReceiveResult.stored h.named,
    known t s false h,
    known t s true h,
  )
